-- ===== src/Socket/Stream.antt =====
-- TinCanXmppSocket as a stream of bytes: what is written, what is sent, and what waits.
use ipop_tincan.Prelude.{
  ◌≡◌, refl, sym, ap, ◌&&◌, ◌∙◌, inl, inr, true, Bool-cases, Option, some, List, [], ◌∷◌, ◌++◌,
  append_assoc, append-nil, arith, Bytes,
}
use ipop_tincan.Socket.{
  Socket, Kernel, SocketCall, Event, connects_to, writes, closes, starts_tls, is_readable,
  is_writable, is_connected, is_closed, tls_open, open_state, signal_ssl_connected,
  signal_connected, closed, tls_connecting, socket_connect, socket_close, signal_closed, start_ssl,
  signal_read, signal_close_event, on_write_event, on_connect_event, write, step, run, is_open,
  is_tls_connecting, uses_tls, signalled,
}
use ipop_tincan.Socket.Writing.{IsBounded, sent, sent-append, on_write_event_total}

-- The bytes that an event writes.
abbrev pub text_of : Event → Bytes
text_of (writes text) = text
text_of (connects_to addr) = []
text_of closes = []
text_of (starts_tls domain) = []
text_of is_readable = []
text_of is_writable = []
text_of is_connected = []
text_of (is_closed error) = []

unfoldable pub written : List (Kernel × Event) → Bytes
written [] = []
written ((k, e) ∷ events) = text_of e ++ written events

abbrev pub AllBounded : List (Kernel × Event) → Type 0
AllBounded [] = Unit {0}
AllBounded ((k, e) ∷ events) = IsBounded k.send × AllBounded events

-- An event is handled: it adds its text to the stream, and the socket stays.
abbrev Streams : Socket → Bytes → Option (Socket × List SocketCall) → Type 0
Streams s text o =
    (s' : Socket) × (calls : List SocketCall) × (o ≡ some (s', calls))
    × (s'.has_socket ≡ true)
    × (sent calls ++ s'.buffer ≡ s.buffer ++ text)

on_write_event-Streams :
    (k : Kernel) (s : Socket)
    → IsBounded k.send
    → s.has_socket ≡ true
    → Streams s [] (on_write_event k s)
on_write_event-Streams k s ok h =
    let (calls, rest, r, t, l) = on_write_event_total k s ok h in
    (record s { buffer = rest }, calls, r, h, t ∙ sym (append-nil s.buffer))

on_connect_event-Streams :
    (k : Kernel) (s : Socket)
    → IsBounded k.send
    → s.has_socket ≡ true
    → Streams s [] (on_connect_event k s)
on_connect_event-Streams k s ok h = elim (Bool-cases (k.ssl_enabled && is_tls_connecting s.state)) [
  | inl secure ↦
      let (calls, rest, r, t, l) = on_write_event_total k (record s { state = tls_open }) ok h in
      (
        record s { state = tls_open; buffer = rest },
        signal_ssl_connected ∷ calls,
        unfold on_connect_event in ground (arith, r, secure),
        h,
        unfold sent in t ∙ sym (append-nil s.buffer),
      )
  | inr plain ↦ (
    record s { state = open_state },
    signal_connected ∷ [],
    unfold on_connect_event in ground (arith, plain),
    h,
    unfold sent in sym (append-nil s.buffer),
  )
]

write-Streams :
    (k : Kernel) (text : Bytes) (s : Socket)
    → IsBounded k.send
    → s.has_socket ≡ true
    → Streams s text (write k text s)
unfolding write
write-Streams k text s ok h =
    let (calls, rest, r, t, l) =
      on_write_event_total k (record s { buffer = s.buffer ++ text }) ok h in
    (record s { buffer = rest }, calls, r, h, t)

-- A call that sends nothing and keeps the buffer.
silent :
    (s s' : Socket) (calls : List SocketCall) (o : Option (Socket × List SocketCall))
    → o ≡ some (s', calls)
    → s'.has_socket ≡ true
    → s'.buffer ≡ s.buffer
    → sent calls ≡ []
    → Streams s [] o
silent s s' calls o e h b n = (s', calls, e, h, rw (n, b) (sym (append-nil s.buffer)))

closes-Streams : (k : Kernel) (s : Socket) → s.has_socket ≡ true → Streams s [] (step k closes s)
unfolding step sent
closes-Streams k s h = elim (Bool-cases (is_open s.state)) [
  | inr no_open ↦ silent s s [] _ (ground (arith, no_open)) h refl refl
  | inl now_open ↦ elim (Bool-cases k.closes) [
    | inl done ↦
        silent s (record s { state = closed }) (socket_close ∷ signal_closed ∷ []) _
          (ground (arith, now_open, done, h)) h refl refl
    | inr failed ↦
        silent s s (socket_close ∷ []) _ (ground (arith, now_open, failed, h)) h refl refl
  ]
]

starts_tls-Streams :
    (k : Kernel) (domain : Bytes) (s : Socket)
    → s.has_socket ≡ true
    → Streams s [] (step k (starts_tls domain) s)
unfolding step sent
starts_tls-Streams k domain s h = elim (Bool-cases (k.ssl_enabled && uses_tls s.tls)) [
  | inr off ↦ silent s s [] _ (ground (arith, off)) h refl refl
  | inl on ↦ elim (Bool-cases (k.starts_ssl domain)) [
    | inl done ↦
        silent s (record s { state = tls_connecting }) (start_ssl domain ∷ []) _
          (ground (arith, on, done, h)) h refl refl
    | inr failed ↦ silent s s (start_ssl domain ∷ []) _ (ground (arith, on, failed, h)) h refl refl
  ]
]

signalled-Streams :
    (s : Socket) (o : Option (Socket × List SocketCall))
    → s.has_socket ≡ true
    → Streams s [] o
    → Streams s [] (signalled s o)
signalled-Streams s o h (s', calls, e, k, t) = (s', calls, ground (arith, e, h), k, t)

step-Streams :
    (k : Kernel) (e : Event) (s : Socket)
    → IsBounded k.send
    → s.has_socket ≡ true
    → Streams s (text_of e) (step k e s)
unfolding step sent
step-Streams k (connects_to addr) s ok h =
    silent s s (socket_connect addr ∷ []) _ (ground arith) h refl refl
step-Streams k (writes text) s ok h = write-Streams k text s ok h
step-Streams k closes s ok h = closes-Streams k s h
step-Streams k (starts_tls domain) s ok h = starts_tls-Streams k domain s h
step-Streams k is_readable s ok h = silent s s (signal_read ∷ []) _ (ground arith) h refl refl
step-Streams k is_writable s ok h =
    signalled-Streams s (on_write_event k s) h (on_write_event-Streams k s ok h)
step-Streams k is_connected s ok h =
    signalled-Streams s (on_connect_event k s) h (on_connect_event-Streams k s ok h)
step-Streams k (is_closed error) s ok h =
    silent s s (signal_close_event error ∷ []) _ (ground arith) h refl refl

-- Whatever happens to a socket that is connected, while Send never takes more than it is offered:
-- the history is handled to its end, and the bytes that Send took, followed by those that wait, are
-- the bytes that waited before, followed by all that were written, in order.
pub run-Streams :
    (events : List (Kernel × Event)) (s : Socket)
    → AllBounded events
    → s.has_socket ≡ true
    → (s' : Socket) × (calls : List SocketCall) × (run events s ≡ some (s', calls))
      × (s'.has_socket ≡ true)
      × (sent calls ++ s'.buffer ≡ s.buffer ++ written events)
unfolding run written sent
run-Streams [] s ok h = (s, [], refl, h, sym (append-nil s.buffer))
run-Streams ((k, e) ∷ events) s ok h =
    let (s', calls, r, h', t) = step-Streams k e s ok.0 h in
    let (s'', more, r', h'', t') = run-Streams events s' ok.1 h' in
    (
      s'',
      calls ++ more,
      ground (arith, r, r'),
      h'',
      rw (sent-append calls more) (
          append_assoc (sent calls) (sent more) s''.buffer
          ∙ ap (λ x. sent calls ++ x) t'
          ∙ sym (append_assoc (sent calls) s'.buffer (written events))
          ∙ ap (λ x. x ++ written events) t
          ∙ append_assoc s.buffer (text_of e) (written events)),
    )
