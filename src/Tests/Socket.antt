-- ===== src/Tests/Socket.antt =====
-- A socket that connects, writes in two pieces, and turns to TLS.
use ipop_tincan.Prelude.{
  ◌≡◌, refl, true, false, none, some, List, [], ◌∷◌, ◌++◌, arith, Bytes, codes, length,
}
use Prim.Native.Nat.{min}
use ipop_tincan.Manager.Types.{inet}
use ipop_tincan.Socket.{
  Socket, Kernel, SocketCall, Event, enabled, closed, tls_connecting, tls_open, writes, is_writable,
  socket_sent, socket_delete, start_ssl, signal_ssl_connected, on_write_event, on_connect_event,
  start_tls, close, destroy, write_loop, consume, run, step, write,
}
use ipop_tincan.Socket.Writing.{IsBounded, Leaves, sent, on_write_event_total}
use ipop_tincan.Socket.Stream.{written, run-Streams}
use ipop_tincan.Socket.Tls.{close-start_tls}

-- Send takes two bytes at a time.
abbrev kernel : Kernel
kernel = record {
  ssl_enabled = true;
  family = λ a. inet;
  connects = λ a. true;
  is_blocking = false;
  send = λ b. min 2 (length b);
  recv = λ n. none;
  closes = true;
  starts_ssl = λ d. true;
}

abbrev wired : Socket
wired = record { has_socket = true; state = closed; buffer = codes "abc"; tls = enabled }

kernel-IsBounded : IsBounded kernel.send
kernel-IsBounded b = omega arith

on_write_event_total_example :
    (calls : List SocketCall) × (rest : Bytes) × (on_write_event kernel wired
      ≡ some (record wired { buffer = rest }, calls))
    × (sent calls ++ rest ≡ codes "abc")
    × Leaves kernel.send rest
on_write_event_total_example = on_write_event_total kernel wired kernel-IsBounded refl

abbrev history : List (Kernel × Event)
history = (kernel, writes (codes "de")) ∷ (kernel, is_writable) ∷ []

run-Streams_example :
    (s' : Socket) × (calls : List SocketCall) × (run history wired ≡ some (s', calls))
    × (s'.has_socket ≡ true)
    × (sent calls ++ s'.buffer ≡ codes "abc" ++ written history)
run-Streams_example = run-Streams history wired (kernel-IsBounded, (kernel-IsBounded, tt)) refl

abbrev shaking : Socket
shaking = record wired { state = tls_connecting }

abbrev secure : Socket
secure = record wired { state = tls_open; buffer = [] }

starts : start_tls kernel (codes "h") wired ≡ some (shaking, true, start_ssl (codes "h") ∷ [])
unfolding start_tls
starts = refl

abbrev flushed : List SocketCall
flushed = signal_ssl_connected ∷ socket_sent (codes "ab") ∷ socket_sent (codes "c") ∷ []

connects : on_connect_event kernel shaking ≡ some (secure, flushed)
unfolding on_connect_event on_write_event write_loop consume
connects = refl

writes_on :
    run ((kernel, writes (codes "de")) ∷ []) secure ≡ some (secure, socket_sent (codes "de") ∷ [])
unfolding run step write on_write_event write_loop consume
writes_on = refl

close-start_tls_example :
    (close kernel secure ≡ some (secure, false, []))
    × (destroy kernel secure ≡ some (socket_delete ∷ []))
close-start_tls_example =
    close-start_tls kernel kernel kernel (codes "h") ((kernel, writes (codes "de")) ∷ []) wired
      shaking secure secure (start_ssl (codes "h") ∷ []) flushed (socket_sent (codes "de") ∷ [])
      starts refl connects (tt, tt) writes_on
