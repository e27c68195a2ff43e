-- ===== src/Xmpp/Reconnect.antt =====
-- What becomes of a session that is lost: OnMessage logs in again, with the settings that Login made.
use ipop_tincan.Prelude.{
  ℕ, ◌+◌, ◌≤◌, ◌≡◌, refl, ◌∙◌, Bool, true, Option, some, List, [], ◌∷◌, ◌++◌, arith, Bytes,
  bytes_eq, length,
}
use ipop_tincan.Manager.Types.{Address}
use ipop_tincan.Xmpp.{
  Network, Jids, State, none_yet, started, opening, open_state, closed, XmppCall, Settings,
  do_login, k_interval, k_xmpp_prefix, login, on_state_change, on_message, on_tick, process_start,
}
use ipop_tincan.Xmpp.Timer.{deliver, reconnects}
use ipop_tincan.Xmpp.Session.{
  Event, logs_in, ticks, reports, receives, step, run, IsTimed, run-IsTimed, step-pump, login-pump,
  run-pump,
}

-- The settings that Login makes of its arguments.
abbrev pub account : Jids → Bytes → Bytes → Bytes → Address → Settings
account jids username password pcid server = record {
  user = jids.node username;
  host = jids.domain username;
  resource = k_xmpp_prefix ++ pcid;
  pass = password;
  server = server;
}

xcs-on_tick :
    (child_error : Bool) (now : ℕ) (s : State) (n : Network)
    → (on_tick child_error now s n).0.xcs ≡ n.xcs
unfolding on_tick
xcs-on_tick child_error now none_yet n = ground arith
xcs-on_tick child_error now started n = ground arith
xcs-on_tick child_error now opening n = ground arith
xcs-on_tick child_error now open_state n = ground arith
xcs-on_tick child_error now closed n = ground arith

xcs-on_message :
    (child_error : Bool) (now : ℕ) (n : Network) → (on_message child_error now n).0.xcs ≡ n.xcs
unfolding on_message
xcs-on_message child_error now n = ground (arith, xcs-on_tick child_error now n.xmpp_state n)

xcs-deliver :
    (child_error : Bool) (now : ℕ) (n : Network) (ts : List ℕ)
    → n.timers ≡ ts
    → (deliver child_error now n).0.xcs ≡ n.xcs
unfolding deliver
xcs-deliver child_error now n [] e = ground arith
xcs-deliver child_error now n (due ∷ rest) e =
    ground (arith, xcs-on_message child_error now (record n { timers = rest }))

xcs-on_state_change :
    (jid : Bytes) (s : State) (n : Network) → (on_state_change jid s n).0.xcs ≡ n.xcs
unfolding on_state_change
xcs-on_state_change jid none_yet n = ground arith
xcs-on_state_change jid started n = ground arith
xcs-on_state_change jid opening n = ground arith
xcs-on_state_change jid open_state n = ground arith
xcs-on_state_change jid closed n = ground arith

step-xcs : (jids : Jids) (n : Network) (e : Event) → n.pump ≡ true → (step jids n e).xcs ≡ n.xcs
unfolding step
step-xcs jids n (logs_in now user pass pcid server) h = unfold login in ground arith
step-xcs jids n (ticks child_error now) h = xcs-deliver child_error now n n.timers refl
step-xcs jids n (reports jid s) h = xcs-on_state_change jid s n
step-xcs jids n (receives own now s) h = unfold process_start in ground arith

run-xcs :
    (jids : Jids) (n : Network) (es : List Event) → n.pump ≡ true → (run jids n es).xcs ≡ n.xcs
unfolding run
run-xcs jids n [] h = refl
run-xcs jids n (e ∷ es) h =
    run-xcs jids (step jids n e) es (step-pump jids n e h) ∙ step-xcs jids n e h

login-made :
    (jids : Jids) (now : ℕ) (n : Network) (user pass pcid : Bytes) (server : Address)
    → (login jids now n user pass pcid server).1 ≡ true
    → ((login jids now n user pass pcid server).0.xcs ≡ some (account jids user pass pcid server))
      × IsTimed (login jids now n user pass pcid server).0
unfolding login
login-made jids now n user pass pcid server h = (ground arith, ground arith)

-- What a session does that logs in again with the settings it has.
abbrev pub LogsIn : ℕ → Option Settings → Network × List XmppCall → Type 0
LogsIn now xcs r =
    (r.1 ≡ do_login xcs ∷ [])
    × (r.0.xmpp_state ≡ none_yet)
    × (r.0.timers ≡ (now + k_interval) ∷ (now + k_interval) ∷ [])

on_message-LogsIn :
    (child_error : Bool) (now : ℕ) (n : Network) (s : State)
    → n.xmpp_state ≡ s
    → n.pump ≡ true
    → reconnects child_error s ≡ true
    → LogsIn now n.xcs (on_message child_error now n)
unfolding on_message on_tick
on_message-LogsIn child_error now n none_yet e pump h = ground arith
on_message-LogsIn child_error now n started e pump h = ground arith
on_message-LogsIn child_error now n opening e pump h = ground arith
on_message-LogsIn child_error now n open_state e pump h = ground arith
on_message-LogsIn child_error now n closed e pump h = ground arith

deliver-LogsIn :
    (child_error : Bool) (now : ℕ) (n : Network) (ts : List ℕ)
    → n.timers ≡ ts
    → 1 ≤ length ts
    → n.pump ≡ true
    → reconnects child_error n.xmpp_state ≡ true
    → LogsIn now n.xcs (deliver child_error now n)
unfolding deliver
deliver-LogsIn child_error now n [] e one pump h = absurd (omega arith)
deliver-LogsIn child_error now n (due ∷ rest) e one pump h =
    rw e (on_message-LogsIn child_error now (record n { timers = rest }) n.xmpp_state refl pump h)

-- After a Login that succeeds, and whatever happens since: a timer runs, and when it fires while the
-- connection is closed, or not begun and without an error of a task, the session logs in again, with
-- the account of that Login, and the next two messages for the timer are due in 15 seconds.
pub login-LogsIn :
    (jids : Jids) (now : ℕ) (n : Network) (user pass pcid : Bytes) (server : Address)
    (es : List Event) (child_error : Bool) (later : ℕ)
    → (login jids now n user pass pcid server).1 ≡ true
    → reconnects child_error (run jids (login jids now n user pass pcid server).0 es).xmpp_state
      ≡ true
    → let n' = run jids (login jids now n user pass pcid server).0 es in
      (1 ≤ length n'.timers)
      × LogsIn later (some (account jids user pass pcid server)) (deliver child_error later n')
login-LogsIn jids now n user pass pcid server es child_error later done h =
    let m = (login jids now n user pass pcid server).0 in
    let (made, timed) = login-made jids now n user pass pcid server done in
    let pump = login-pump jids now n user pass pcid server done in
    let still = run-pump jids m es pump in
    let waits = (run-IsTimed jids m es timed).running still in
    let same = run-xcs jids m es pump ∙ made in
    (waits, rw (← same) (deliver-LogsIn child_error later (run jids m es) _ refl waits still h))
