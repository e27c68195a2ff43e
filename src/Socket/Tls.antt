-- ===== src/Socket/Tls.antt =====
-- The states of TinCanXmppSocket once TLS is on.
use ipop_tincan.Prelude.{◌≡◌, true, false, some, List, [], ◌∷◌, ◌++◌, arith, Bytes, >>=-eq-some}
use ipop_tincan.Socket.{
  Socket, Kernel, SocketCall, Event, connects_to, writes, closes, starts_tls, is_readable,
  is_writable, is_connected, is_closed, tls_open, tls_connecting, socket_delete, on_write_event,
  on_connect_event, close, destroy, start_tls, step, run,
}

-- An event that is neither StartTls nor the socket's connect event.
abbrev pub IsSettled : Event → Type 0
IsSettled (starts_tls domain) = ⊥
IsSettled is_connected = ⊥
IsSettled (connects_to addr) = Unit {0}
IsSettled (writes text) = Unit {0}
IsSettled closes = Unit {0}
IsSettled is_readable = Unit {0}
IsSettled is_writable = Unit {0}
IsSettled (is_closed error) = Unit {0}

abbrev pub AllSettled : List (Kernel × Event) → Type 0
AllSettled [] = Unit {0}
AllSettled ((k, e) ∷ events) = IsSettled e × AllSettled events

on_write_event-state :
    (k : Kernel) (s s' : Socket) (calls : List SocketCall)
    → on_write_event k s ≡ some (s', calls)
    → s'.state ≡ s.state
unfolding on_write_event
on_write_event-state k s s' calls e = ground arith

step-state :
    (k : Kernel) (e : Event) (s s' : Socket) (calls : List SocketCall)
    → IsSettled e
    → s.state ≡ tls_open
    → step k e s ≡ some (s', calls)
    → s'.state ≡ tls_open
unfolding step
step-state k (connects_to addr) s s' calls i h e = ground arith
step-state k (writes text) s s' calls i h e =
    ground (arith, on_write_event-state k (record s { buffer = s.buffer ++ text }) s' calls)
step-state k closes s s' calls i h e = ground arith
step-state k (starts_tls domain) s s' calls i h e = absurd i
step-state k is_readable s s' calls i h e = ground arith
step-state k is_writable s s' calls i h e = ground (arith, on_write_event-state k s s' calls)
step-state k is_connected s s' calls i h e = absurd i
step-state k (is_closed error) s s' calls i h e = ground arith

run-state :
    (events : List (Kernel × Event)) (s s' : Socket) (calls : List SocketCall)
    → AllSettled events
    → s.state ≡ tls_open
    → run events s ≡ some (s', calls)
    → s'.state ≡ tls_open
unfolding run
run-state [] s s' calls i h e = ground arith
run-state ((k, e) ∷ events) s s' calls i h r =
    let ((t, first), f, g) = >>=-eq-some (step k e s) _ (s', calls) r in
    let ((t', more), f', g') = >>=-eq-some (run events t) _ (s', calls) g in
    let there = run-state events t t' more i.1 (step-state k e s t first i.0 h f) f' in ground arith

on_connect_event-state :
    (k : Kernel) (s s' : Socket) (calls : List SocketCall)
    → k.ssl_enabled ≡ true
    → s.state ≡ tls_connecting
    → on_connect_event k s ≡ some (s', calls)
    → s'.state ≡ tls_open
unfolding on_connect_event
on_connect_event-state k s s' calls ssl h e =
    ground (arith, on_write_event-state k (record s { state = tls_open }) s')

state-start_tls :
    (k : Kernel) (domain : Bytes) (s s' : Socket) (calls : List SocketCall)
    → start_tls k domain s ≡ some (s', true, calls)
    → s'.state ≡ tls_connecting
unfolding start_tls
state-start_tls k domain s s' calls e = ground arith

close-tls_open : (k : Kernel) (s : Socket) → s.state ≡ tls_open → close k s ≡ some (s, false, [])
unfolding close
close-tls_open k s h = ground arith

-- After a StartTls that succeeds and the connect event that ends its handshake, and whatever follows
-- but a further StartTls or connect event, Close returns false and does not close the socket, and
-- the destructor deletes the socket without closing it.
pub close-start_tls :
    (k k' k'' : Kernel) (domain : Bytes) (events : List (Kernel × Event)) (s s₁ s₂ s₃ : Socket)
    (c₁ c₂ c₃ : List SocketCall)
    → start_tls k domain s ≡ some (s₁, true, c₁)
    → k'.ssl_enabled ≡ true
    → on_connect_event k' s₁ ≡ some (s₂, c₂)
    → AllSettled events
    → run events s₂ ≡ some (s₃, c₃)
    → (close k'' s₃ ≡ some (s₃, false, [])) × (destroy k'' s₃ ≡ some (socket_delete ∷ []))
unfolding destroy
close-start_tls k k' k'' domain events s s₁ s₂ s₃ c₁ c₂ c₃ tls ssl conn ok r =
    let shaking = state-start_tls k domain s s₁ c₁ tls in
    let on = on_connect_event-state k' s₁ s₂ c₂ ssl shaking conn in
    let kept = close-tls_open k'' s₃ (run-state events s₂ s₃ c₃ ok on r) in
    (kept, ground (arith, kept))
