-- ===== src/Xmpp/Timer.antt =====
-- The timer of OnMessage: how many of its messages wait in the main thread's queue.
use ipop_tincan.Prelude.{
  ℕ, ◌+◌, ◌≡◌, refl, Bool, true, false, not, List, [], ◌∷◌, arith, bytes_eq, length, length-append,
  if◌then◌else◌,
}
use ipop_tincan.Xmpp.{
  Network, State, none_yet, started, opening, open_state, closed, XmppCall, on_message, on_tick,
  k_interval,
}

-- The main thread takes the message that is due out of its queue, and calls OnMessage.
unfoldable pub deliver : Bool → ℕ → Network → Network × List XmppCall
deliver child_error now n = elim n.timers [
  | [] ↦ (n, [])
  | due ∷ rest ↦ on_message child_error now (record n { timers = rest })
]

-- The states in which OnMessage connects anew.
abbrev pub reconnects : Bool → State → Bool
reconnects child_error none_yet = not child_error
reconnects child_error closed = true
reconnects child_error started = false
reconnects child_error opening = false
reconnects child_error open_state = false

on_tick-timers :
    (child_error : Bool) (now : ℕ) (s : State) (n : Network)
    → ((on_tick child_error now s n).0.timers
        ≡ (if reconnects child_error s then (now + k_interval) ∷ [] else n.timers))
      × ((on_tick child_error now s n).0.pump ≡ (if reconnects child_error s then true else n.pump))
unfolding on_tick
on_tick-timers child_error now none_yet n = ground arith
on_tick-timers child_error now started n = ground arith
on_tick-timers child_error now opening n = ground arith
on_tick-timers child_error now open_state n = ground arith
on_tick-timers child_error now closed n = ground arith

pump-on_message :
    (child_error : Bool) (now : ℕ) (n : Network)
    → n.pump ≡ true
    → (on_message child_error now n).0.pump ≡ true
unfolding on_message
pump-on_message child_error now n h = ground (arith, on_tick-timers child_error now n.xmpp_state n)

length-on_message :
    (child_error : Bool) (now : ℕ) (n : Network)
    → n.pump ≡ true
    → length (on_message child_error now n).0.timers
      ≡ (if reconnects child_error n.xmpp_state then 2 else length n.timers + 1)
unfolding on_message
length-on_message child_error now n h = ground (
  arith,
  on_tick-timers child_error now n.xmpp_state n,
  length-append n.timers ((now + k_interval) ∷ []),
)

-- When the timer fires on a session that has a pump, two timers run afterwards if OnMessage
-- connects anew, since Connect posts one and OnMessage posts another, and as many as before if not.
pub length-deliver :
    (child_error : Bool) (now due : ℕ) (rest : List ℕ) (n : Network)
    → n.pump ≡ true
    → n.timers ≡ due ∷ rest
    → length (deliver child_error now n).0.timers
      ≡ (if reconnects child_error n.xmpp_state then 2 else length n.timers)
unfolding deliver
length-deliver child_error now due rest n h e =
    ground (arith, length-on_message child_error now (record n { timers = rest }))

pump-deliver_at :
    (child_error : Bool) (now : ℕ) (n : Network) (ts : List ℕ)
    → n.timers ≡ ts
    → n.pump ≡ true
    → (deliver child_error now n).0.pump ≡ true
unfolding deliver
pump-deliver_at child_error now n [] e h = ground arith
pump-deliver_at child_error now n (due ∷ rest) e h =
    ground (arith, pump-on_message child_error now (record n { timers = rest }))

pub pump-deliver :
    (child_error : Bool) (now : ℕ) (n : Network)
    → n.pump ≡ true
    → (deliver child_error now n).0.pump ≡ true
pump-deliver child_error now n h = pump-deliver_at child_error now n n.timers refl h
