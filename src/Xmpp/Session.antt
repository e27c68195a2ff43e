-- ===== src/Xmpp/Session.antt =====
-- The life of the XMPP session: its logins and its timers.
use ipop_tincan.Prelude.{
  ℕ, ◌≤◌, ◌≡◌, refl, ◌∙◌, Bool, true, false, Option, none, some, List, [], ◌∷◌, arith, Bytes,
  bytes_eq, length,
}
use ipop_tincan.Map.{empty}
use ipop_tincan.Manager.Types.{Address}
use ipop_tincan.Xmpp.Timer.{deliver, length-deliver, pump-deliver}
use ipop_tincan.Xmpp.{
  Network, Stanza, Jids, State, none_yet, started, opening, open_state, closed, XmppCall, login,
  on_state_change, process_start,
}

-- What reaches the network object: a call of the controller, the timer, the engine, a stanza.
pub data Event : Type 0 where
  logs_in : ℕ → Bytes → Bytes → Bytes → Address → Event
  ticks : Bool → ℕ → Event
  reports : Bytes → State → Event
  receives : Bytes → ℕ → Stanza → Event

abbrev pub after : Network → Option (Network × List XmppCall) → Network
after n none = n
after n (some (n', calls)) = n'

-- A stanza that makes ProcessStart fail ends the process; here it changes nothing.
unfoldable pub step : Jids → Network → Event → Network
step jids n (logs_in now user pass pcid server) = (login jids now n user pass pcid server).0
step jids n (ticks child_error now) = (deliver child_error now n).0
step jids n (reports jid state) = (on_state_change jid state n).0
step jids n (receives own now s) = after n (process_start jids own now n s)

unfoldable pub run : Jids → Network → List Event → Network
run jids n [] = n
run jids n (e ∷ es) = run jids (step jids n e) es

-- XmppNetwork::XmppNetwork, which leaves xmpp_state_ and on_msg_counter_ unset: `state` and `counter`
-- are what the memory holds.
unfoldable pub fresh : State → ℕ → Network
fresh state counter = record {
  xcs = none;
  pump = false;
  presence_out = false;
  ping_task = false;
  tincan_task = false;
  presence_time = [];
  xmpp_state = state;
  on_msg_counter = counter;
  uid = [];
  timers = [];
  g_uid_map = empty;
}

-- Without a login no timer runs; with one there are one or two.
pub record IsTimed (n : Network) : Type 0 where
  pub silent : n.pump ≡ false → n.timers ≡ []
  pub running : n.pump ≡ true → 1 ≤ length n.timers
  pub bounded : length n.timers ≤ 2

pub login-IsTimed :
    (jids : Jids) (now : ℕ) (n : Network) (user pass pcid : Bytes) (server : Address)
    → IsTimed n
    → IsTimed (login jids now n user pass pcid server).0
unfolding login
login-IsTimed jids now n user pass pcid server v = ground arith

pub deliver-IsTimed :
    (child_error : Bool) (now : ℕ) (n : Network) (b : Bool) (ts : List ℕ)
    → n.pump ≡ b
    → n.timers ≡ ts
    → IsTimed n
    → IsTimed (deliver child_error now n).0
deliver-IsTimed child_error now n b [] p e v = unfold deliver in rw (e, deliver) v
deliver-IsTimed child_error now n false (due ∷ rest) p e v = absurd (cc (v.silent p))
deliver-IsTimed child_error now n true (due ∷ rest) p e v = record {
  silent = λ q. absurd (cc (q, pump-deliver child_error now n p));
  running = λ q. ground (arith, length-deliver child_error now due rest n p e, v.running p);
  bounded = ground (arith, length-deliver child_error now due rest n p e, v.bounded);
}

pub on_state_change-same :
    (jid : Bytes) (s : State) (n : Network)
    → ((on_state_change jid s n).0.timers ≡ n.timers) × ((on_state_change jid s n).0.pump ≡ n.pump)
unfolding on_state_change
on_state_change-same jid none_yet n = ground arith
on_state_change-same jid started n = ground arith
on_state_change-same jid opening n = ground arith
on_state_change-same jid open_state n = ground arith
on_state_change-same jid closed n = ground arith

pub process_start-same :
    (jids : Jids) (own : Bytes) (now : ℕ) (n : Network) (s : Stanza)
    → let n' = after n (process_start jids own now n s) in
      (n'.timers ≡ n.timers) × (n'.pump ≡ n.pump)
unfolding process_start
process_start-same jids own now n s = ground arith

pub IsTimed-same :
    (n n' : Network) → n'.timers ≡ n.timers → n'.pump ≡ n.pump → IsTimed n → IsTimed n'
IsTimed-same n n' e f v = ground arith

step-IsTimed : (jids : Jids) (n : Network) (e : Event) → IsTimed n → IsTimed (step jids n e)
unfolding step
step-IsTimed jids n (logs_in now user pass pcid server) v =
    login-IsTimed jids now n user pass pcid server v
step-IsTimed jids n (ticks child_error now) v =
    deliver-IsTimed child_error now n n.pump n.timers refl refl v
step-IsTimed jids n (reports jid s) v =
    let (e, f) = on_state_change-same jid s n in IsTimed-same n _ e f v
step-IsTimed jids n (receives own now s) v =
    let (e, f) = process_start-same jids own now n s in IsTimed-same n _ e f v

pub run-IsTimed :
    (jids : Jids) (n : Network) (es : List Event) → IsTimed n → IsTimed (run jids n es)
unfolding run
run-IsTimed jids n [] v = v
run-IsTimed jids n (e ∷ es) v = run-IsTimed jids (step jids n e) es (step-IsTimed jids n e v)

pub fresh-IsTimed : (state : State) (counter : ℕ) → IsTimed (fresh state counter)
unfolding fresh
fresh-IsTimed state counter = ground arith

-- In every history from the start, no message for OnMessage is queued before a login succeeds, and
-- from then on one or two are: the session never goes without its timer, and reconnecting does not
-- pile timers up.
pub run-fresh-IsTimed :
    (jids : Jids) (state : State) (counter : ℕ) (es : List Event)
    → IsTimed (run jids (fresh state counter) es)
run-fresh-IsTimed jids state counter es =
    run-IsTimed jids (fresh state counter) es (fresh-IsTimed state counter)

pub step-pump :
    (jids : Jids) (n : Network) (e : Event) → n.pump ≡ true → (step jids n e).pump ≡ true
unfolding step
step-pump jids n (logs_in now user pass pcid server) h = unfold login in ground arith
step-pump jids n (ticks child_error now) h = pump-deliver child_error now n h
step-pump jids n (reports jid s) h = (on_state_change-same jid s n).1 ∙ h
step-pump jids n (receives own now s) h = (process_start-same jids own now n s).1 ∙ h

pub run-pump :
    (jids : Jids) (n : Network) (es : List Event) → n.pump ≡ true → (run jids n es).pump ≡ true
unfolding run
run-pump jids n [] h = h
run-pump jids n (e ∷ es) h = run-pump jids (step jids n e) es (step-pump jids n e h)

pub login-pump :
    (jids : Jids) (now : ℕ) (n : Network) (user pass pcid : Bytes) (server : Address)
    → (login jids now n user pass pcid server).1 ≡ true
    → (login jids now n user pass pcid server).0.pump ≡ true
unfolding login
login-pump jids now n user pass pcid server h = ground arith

login-refused :
    (jids : Jids) (now : ℕ) (n : Network) (user pass pcid : Bytes) (server : Address)
    → n.pump ≡ true
    → login jids now n user pass pcid server ≡ (n, false, [])
unfolding login
login-refused jids now n user pass pcid server h = ground arith

-- After a Login that succeeds, and whatever happens since, every further Login is refused and
-- changes nothing: the account cannot be changed while the program runs.
pub login_once :
    (jids : Jids) (now : ℕ) (n : Network) (user pass pcid : Bytes) (server : Address)
    (es : List Event) (later : ℕ) (user' pass' pcid' : Bytes) (server' : Address)
    → (login jids now n user pass pcid server).1 ≡ true
    → let n' = run jids (login jids now n user pass pcid server).0 es in
      login jids later n' user' pass' pcid' server' ≡ (n', false, [])
login_once jids now n user pass pcid server es later user' pass' pcid' server' h =
    login-refused jids later _ user' pass' pcid' server'
      (run-pump jids _ es (login-pump jids now n user pass pcid server h))
