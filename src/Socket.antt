-- ===== src/Socket.antt =====
-- src/tincanxmppsocket.h and .cc: TinCanXmppSocket, which buffers what the XMPP client writes and
-- passes on the events of a libjingle socket. The socket's answers are `Kernel`.
pub mod Writing
pub mod Stream
pub mod Tls
use ipop_tincan.Prelude.{
  ℕ, zero, suc, Bool, true, false, not, ◌&&◌, Option, none, some, List, [], ◌∷◌, ◌++◌, Bytes, leb,
  length, take, drop, ◌>>=◌, pure, if◌then◌else◌,
}
use ipop_tincan.Manager.Types.{Address, Family, inet, inet6, unspecified}

-- buzz::AsyncSocket::State, the values that the code sets.
pub data State : Type 0 where
  closed open_state tls_connecting tls_open : State

pub data TlsOptions : Type 0 where
  disabled enabled required : TlsOptions

-- `has_socket` is cricket_socket_ != NULL.
pub record Socket : Type 0 where
  pub has_socket : Bool
  pub state : State
  pub buffer : Bytes
  pub tls : TlsOptions

-- What the build and the libjingle socket answer during one call. `ssl_enabled` is
-- FEATURE_ENABLE_SSL; `send` gives the result of Send for the bytes it is offered, 0 for any that
-- is not positive; `recv` gives the bytes of a positive result of Recv.
pub record Kernel : Type 0 where
  pub ssl_enabled : Bool
  pub family : Address → Family
  pub connects : Address → Bool
  pub is_blocking : Bool
  pub send : Bytes → ℕ
  pub recv : ℕ → Option Bytes
  pub closes : Bool
  pub starts_ssl : Bytes → Bool

pub data SocketCall : Type 0 where
  -- the family, and whether an SSLAdapter is put around it
  create_async_socket : Family → Bool → SocketCall
  socket_connect : Address → SocketCall
  -- the bytes that Send took
  socket_sent : Bytes → SocketCall
  socket_close socket_delete : SocketCall
  start_ssl : Bytes → SocketCall
  signal_read signal_connected signal_ssl_connected signal_closed : SocketCall
  signal_close_event : ℕ → SocketCall

unfoldable pub new_socket : TlsOptions → Socket
new_socket tls = record { has_socket = false; state = closed; buffer = []; tls = tls }

abbrev pub uses_tls : TlsOptions → Bool
uses_tls disabled = false
uses_tls enabled = true
uses_tls required = true

abbrev default_family : Family → Family
default_family unspecified = inet
default_family inet = inet
default_family inet6 = inet6

-- CreateCricketSocket
unfoldable pub create_cricket_socket : Kernel → Family → Socket → Socket × List SocketCall
create_cricket_socket k family s = (
  record s { has_socket = true },
  create_async_socket (default_family family) (k.ssl_enabled && uses_tls s.tls) ∷ [],
)

-- ByteBuffer::Consume: more than is there is refused.
unfoldable pub consume : ℕ → Bytes → Bytes
consume n buffer = if leb n (length buffer) then drop n buffer else buffer

-- The loop of OnWriteEvent, with what Send took and what stays in the buffer; `none` is the end of
-- the fuel.
unfoldable pub write_loop : (Bytes → ℕ) → ℕ → Bytes → Option (List SocketCall × Bytes)
unfolding consume
write_loop send zero buffer = none
write_loop send (suc fuel) [] = some ([], [])
write_loop send (suc fuel) (b ∷ bs) = elim (send (b ∷ bs)) [
  | zero ↦ some ([], b ∷ bs)
  | suc n ↦ do
    (calls, rest) ← write_loop send fuel (consume (suc n) (b ∷ bs))
    pure (socket_sent (take (suc n) (b ∷ bs)) ∷ calls, rest)
]

-- `none` is a call through a null socket, or a loop that does not end: one round more than there
-- are bytes is enough if Send takes no more than it is offered.
unfoldable pub on_write_event : Kernel → Socket → Option (Socket × List SocketCall)
unfolding write_loop
on_write_event k s = elim s.buffer [
  | [] ↦ some (s, [])
  | b ∷ bs ↦ if not s.has_socket then none else do
    (calls, rest) ← write_loop k.send (suc (length s.buffer)) s.buffer
    pure (record s { buffer = rest }, calls)
]

abbrev is_tls_connecting : State → Bool
is_tls_connecting tls_connecting = true
is_tls_connecting closed = false
is_tls_connecting open_state = false
is_tls_connecting tls_open = false

unfoldable pub on_connect_event : Kernel → Socket → Option (Socket × List SocketCall)
unfolding on_write_event
on_connect_event k s =
    if k.ssl_enabled && is_tls_connecting s.state
    then (do
      (s', calls) ← on_write_event k (record s { state = tls_open })
      pure (s', signal_ssl_connected ∷ calls))
    else some (record s { state = open_state }, signal_connected ∷ [])

-- The result, and the socket that Connect makes where there is none.
unfoldable pub connect : Kernel → Address → Socket → Socket × Bool × List SocketCall
unfolding create_cricket_socket
connect k addr s =
    let (s', calls) = if s.has_socket then (s, []) else create_cricket_socket k (k.family addr) s in
    (s', (if k.connects addr then true else k.is_blocking), calls ++ socket_connect addr ∷ [])

-- Read, whose result is the bytes, or `none` for false. A null socket is the outer `none`.
unfoldable pub read : Kernel → ℕ → Socket → Option (Option Bytes)
read k len s = if s.has_socket then some (k.recv len) else none

unfoldable pub write : Kernel → Bytes → Socket → Option (Socket × List SocketCall)
unfolding on_write_event
write k text s = on_write_event k (record s { buffer = s.buffer ++ text })

abbrev is_open : State → Bool
is_open open_state = true
is_open closed = false
is_open tls_connecting = false
is_open tls_open = false

unfoldable pub close : Kernel → Socket → Option (Socket × Bool × List SocketCall)
close k s =
    if not (is_open s.state)
    then some (s, false, [])
    else if not s.has_socket
    then none
    else if k.closes
    then some (record s { state = closed }, true, socket_close ∷ signal_closed ∷ [])
    else some (s, false, socket_close ∷ [])

-- ~TinCanXmppSocket
unfoldable pub destroy : Kernel → Socket → Option (List SocketCall)
unfolding close
destroy k s = do (s', done, calls) ← close k s; pure (calls ++ socket_delete ∷ [])

unfoldable pub start_tls : Kernel → Bytes → Socket → Option (Socket × Bool × List SocketCall)
start_tls k domain s =
    if not (k.ssl_enabled && uses_tls s.tls)
    then some (s, false, [])
    else if not s.has_socket
    then none
    else if k.starts_ssl domain
    then some (record s { state = tls_connecting }, true, start_ssl domain ∷ [])
    else some (s, false, start_ssl domain ∷ [])

-- What happens to a socket. The signals come from the libjingle socket.
pub data Event : Type 0 where
  connects_to : Address → Event
  writes : Bytes → Event
  closes : Event
  starts_tls : Bytes → Event
  is_readable is_writable is_connected : Event
  is_closed : ℕ → Event

-- Without a libjingle socket there is no signal.
abbrev signalled : Socket → Option (Socket × List SocketCall) → Option (Socket × List SocketCall)
signalled s o = if s.has_socket then o else some (s, [])

unfoldable pub step : Kernel → Event → Socket → Option (Socket × List SocketCall)
unfolding connect write close start_tls on_connect_event
step k (connects_to addr) s = let (s', done, calls) = connect k addr s in some (s', calls)
step k (writes text) s = write k text s
step k closes s = do (s', done, calls) ← close k s; pure (s', calls)
step k (starts_tls domain) s = do (s', done, calls) ← start_tls k domain s; pure (s', calls)
step k is_readable s = signalled s (some (s, signal_read ∷ []))
step k is_writable s = signalled s (on_write_event k s)
step k is_connected s = signalled s (on_connect_event k s)
step k (is_closed error) s = signalled s (some (s, signal_close_event error ∷ []))

-- The calls of a history, each event with the answers given to it, and the socket after it.
unfoldable pub run : List (Kernel × Event) → Socket → Option (Socket × List SocketCall)
unfolding step
run [] s = some (s, [])
run ((k, e) ∷ events) s = do
  (s', calls) ← step k e s
  (s'', more) ← run events s'
  pure (s'', calls ++ more)
