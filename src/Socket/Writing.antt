-- ===== src/Socket/Writing.antt =====
-- The loop of OnWriteEvent: what Send takes of the buffer, and what stays.
use ipop_tincan.Prelude.{
  ℕ, zero, suc, ◌≤◌, ◌<◌, ◌≡◌, refl, sym, ap, ◌∙◌, ◌⊎◌, inl, inr, true, some, List, [], ◌∷◌, ◌++◌,
  append_assoc, arith, Bytes, length, take, drop, take-append-drop, length-drop,
}
use ipop_tincan.Socket.{
  Socket, Kernel, SocketCall, socket_sent, create_async_socket, socket_connect, socket_close,
  socket_delete, start_ssl, signal_read, signal_connected, signal_ssl_connected, signal_closed,
  signal_close_event, consume, write_loop, on_write_event,
}

-- Send takes no more than it is offered.
abbrev pub IsBounded : (Bytes → ℕ) → Type 0
IsBounded send = (buffer : Bytes) → send buffer ≤ length buffer

-- The bytes that the calls sent, in order.
unfoldable pub sent : List SocketCall → Bytes
sent [] = []
sent (socket_sent text ∷ calls) = text ++ sent calls
sent (create_async_socket family ssl ∷ calls) = sent calls
sent (socket_connect addr ∷ calls) = sent calls
sent (socket_close ∷ calls) = sent calls
sent (socket_delete ∷ calls) = sent calls
sent (start_ssl domain ∷ calls) = sent calls
sent (signal_read ∷ calls) = sent calls
sent (signal_connected ∷ calls) = sent calls
sent (signal_ssl_connected ∷ calls) = sent calls
sent (signal_closed ∷ calls) = sent calls
sent (signal_close_event error ∷ calls) = sent calls

pub sent-append : (xs ys : List SocketCall) → sent (xs ++ ys) ≡ sent xs ++ sent ys
unfolding sent
sent-append [] ys = refl
sent-append (socket_sent text ∷ calls) ys =
    rw (sent-append calls ys) (sym (append_assoc text (sent calls) (sent ys)))
sent-append (create_async_socket family ssl ∷ calls) ys = sent-append calls ys
sent-append (socket_connect addr ∷ calls) ys = sent-append calls ys
sent-append (socket_close ∷ calls) ys = sent-append calls ys
sent-append (socket_delete ∷ calls) ys = sent-append calls ys
sent-append (start_ssl domain ∷ calls) ys = sent-append calls ys
sent-append (signal_read ∷ calls) ys = sent-append calls ys
sent-append (signal_connected ∷ calls) ys = sent-append calls ys
sent-append (signal_ssl_connected ∷ calls) ys = sent-append calls ys
sent-append (signal_closed ∷ calls) ys = sent-append calls ys
sent-append (signal_close_event error ∷ calls) ys = sent-append calls ys

-- What the loop leaves: nothing, or bytes of which Send took none.
abbrev pub Leaves : (Bytes → ℕ) → Bytes → Type 0
Leaves send rest = (rest ≡ []) ⊎ (send rest ≡ 0)

-- The loop returns, its calls send the bytes that it takes off the buffer, and it stops for a reason.
abbrev Finishes : (Bytes → ℕ) → ℕ → Bytes → Type 0
Finishes send fuel buffer =
    (calls : List SocketCall) × (rest : Bytes) × (write_loop send fuel buffer ≡ some (calls, rest))
    × (sent calls ++ rest ≡ buffer)
    × Leaves send rest

write_loop-round :
    (send : Bytes → ℕ) (fuel b : ℕ) (bs : Bytes) (n : ℕ)
    → send (b ∷ bs) ≡ suc n
    → n ≤ length bs
    → Finishes send fuel (drop n bs)
    → Finishes send (suc fuel) (b ∷ bs)
unfolding write_loop consume sent
write_loop-round send fuel b bs n e h (calls, rest, r, s, l) = (
  socket_sent (b ∷ take n bs) ∷ calls,
  rest,
  ground (arith, e, r),
  append_assoc (b ∷ take n bs) (sent calls) rest
      ∙ ap (λ t. (b ∷ take n bs) ++ t) s
      ∙ ap (◌∷◌ b) (take-append-drop n bs),
  l,
)

pub write_loop_total :
    (send : Bytes → ℕ) (fuel : ℕ) (buffer : Bytes)
    → IsBounded send
    → length buffer < fuel
    → Finishes send fuel buffer
unfolding write_loop sent
write_loop_total send zero buffer ok h = absurd (omega arith)
write_loop_total send (suc fuel) [] ok h = ([], [], refl, refl, inl refl)
write_loop_total send (suc fuel) (b ∷ bs) ok h =
    go (send (b ∷ bs)) refl (λ n. write_loop_total send fuel (drop n bs) ok)
  where
    go :
        (n : ℕ)
        → send (b ∷ bs) ≡ n
        → ((m : ℕ) → length (drop m bs) < fuel → Finishes send fuel (drop m bs))
        → Finishes send (suc fuel) (b ∷ bs)
    go zero e ih = ([], b ∷ bs, ground arith, refl, inr e)
    go (suc n) e ih =
        write_loop-round send fuel b bs n e (ground (arith, ok (b ∷ bs)))
          (ih n (omega (arith, length-drop n bs)))

-- OnWriteEvent on a socket that is connected returns, if Send takes no more than it is offered: the
-- bytes sent and those that stay are the buffer in order, and it stops only when the buffer is empty
-- or Send takes nothing of it.
pub on_write_event_total :
    (k : Kernel) (s : Socket)
    → IsBounded k.send
    → s.has_socket ≡ true
    → (calls : List SocketCall) × (rest : Bytes) × (on_write_event k s
        ≡ some (record s { buffer = rest }, calls))
      × (sent calls ++ rest ≡ s.buffer)
      × Leaves k.send rest
on_write_event_total k s ok h = go s.buffer refl
  where
    go :
        (buffer : Bytes)
        → s.buffer ≡ buffer
        → (calls : List SocketCall) × (rest : Bytes) × (on_write_event k s
            ≡ some (record s { buffer = rest }, calls))
          × (sent calls ++ rest ≡ s.buffer)
          × Leaves k.send rest
    go [] e = ([], [], unfold on_write_event in ground arith, unfold sent in ground arith, inl refl)
    go (b ∷ bs) e =
        let (calls, rest, r, t, l) =
          write_loop_total k.send (suc (length s.buffer)) s.buffer ok (omega arith) in
        (calls, rest, unfold on_write_event in ground (arith, e, h, r), t, l)
