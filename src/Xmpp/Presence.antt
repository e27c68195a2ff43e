-- ===== src/Xmpp/Presence.antt =====
-- How often OnMessage sends the presence again.
use ipop_tincan.Prelude.{
  ℕ, zero, suc, ◌+◌, ◌*◌, ◌/◌, ◌%◌, ◌<◌, ◌≡◌, ◌∙◌, refl, true, false, List, [], ◌∷◌, ◌++◌, arith,
  nat_beq, length, if◌then◌else◌,
}
use ipop_tincan.Xmpp.{Network, open_state, XmppCall, send_presence, on_message, k_presence_interval}

-- OnMessage at each of the given times, with no error of a child task.
unfoldable pub beats : List ℕ → Network → List XmppCall
beats [] n = []
beats (now ∷ ts) n = let (n', calls) = on_message false now n in calls ++ beats ts n'

-- What it sends, by the counter alone.
pulses : ℕ → ℕ → List XmppCall
pulses zero c = []
pulses (suc k) c =
    let rest = pulses k (c + 15) in
    if nat_beq (c % k_presence_interval) 0 then send_presence ∷ rest else rest

beats-pulses :
    (ts : List ℕ) (n : Network)
    → n.pump ≡ true
    → n.xmpp_state ≡ open_state
    → beats ts n ≡ pulses (length ts) n.on_msg_counter
unfolding beats pulses on_message
beats-pulses [] n p s = refl
beats-pulses (now ∷ ts) n p s = ground (arith, beats-pulses ts (on_message false now n).0)

pulses-eight : (q r : ℕ) → r < 8 → pulses 8 (120 * q + 15 * r) ≡ send_presence ∷ []
unfolding pulses
pulses-eight q r h = ground arith

-- While the connection is open, the counter stands at a multiple of fifteen and no child task
-- fails, eight consecutive calls of OnMessage send the presence exactly once, and nothing else.
pub beats-eight :
    (ts : List ℕ) (n : Network) (k : ℕ)
    → n.pump ≡ true
    → n.xmpp_state ≡ open_state
    → n.on_msg_counter ≡ 15 * k
    → length ts ≡ 8
    → beats ts n ≡ send_presence ∷ []
beats-eight ts n k p s e l =
    let split : 15 * k ≡ 120 * (k / 8) + 15 * (k % 8) = omega arith in
    beats-pulses ts n p s ∙ rw (l, e, split) (pulses-eight (k / 8) (k % 8) (omega arith))
