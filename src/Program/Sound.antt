-- ===== src/Program/Sound.antt =====
-- What holds of a running node between two events: at its start in main of src/tincan.cc, and over
-- the handlers of the XMPP network.
use ipop_tincan.Prelude.{
  ℕ, ◌≡◌, refl, Bool, Option, none, some, List, [], ◌∷◌, arith, Bytes, nat_eq, bytes_eq, Holds,
  Holds-bind, Holds-some, either,
}
use ipop_tincan.StringSet.{IsOrdered}
use ipop_tincan.Table.{keys, assign-IsOrdered}
use ipop_tincan.Manager.{init}
use ipop_tincan.Manager.Links.Safety.{IsConsistent, init-IsConsistent}
use ipop_tincan.Manager.Packets.Delivery.{IsServed}
use ipop_tincan.Xmpp.{
  Network, Jids, State, Stanza, XmppCall, none_yet, started, opening, open_state, closed,
  process_start, process_peer, remember, is_from_peer, read_query, set_time, get_key, handle_peer,
  Query, on_tick, on_message, on_state_change,
}
use ipop_tincan.Xmpp.Timer.{deliver}
use ipop_tincan.Xmpp.Session.{IsTimed, fresh, fresh-IsTimed}
use ipop_tincan.Controller.Safety.{Agrees}
use ipop_tincan.Start.{k_tap_name, k_udp_port, Interface, free_ip, parse_args}
use ipop_tincan.Program.{Program, Chance, services, new_program, main}

-- The tables of links agree; a method means what init_map says; friends are kept in order and each
-- once; the session has its timer; every posted message has its packet; the services are main's.
pub record IsSound (p : Program) : Type 0 where
  pub tables : IsConsistent p.controller.manager
  pub methods : Agrees p.controller.rpc_calls
  pub friends : IsOrdered (keys p.controller.network.presence_time)
  pub timed : IsTimed p.controller.network
  pub served : IsServed p.controller.queues
  pub wired : p.services ≡ services

new_program-IsSound :
    (chance : Chance) (tap_name : Bytes) (port : ℕ) (mac ip : Bytes)
    → IsSound (new_program chance tap_name port mac ip)
unfolding new_program fresh
new_program-IsSound chance tap_name port mac ip =
    let c = init-IsConsistent chance.tiebreaker tap_name in
    record {
      tables = record {
        keyed = c.keyed;
        registered = c.registered;
        owned = c.owned;
        short_owned = c.short_owned;
      };
      methods = λ method. refl;
      friends = tt;
      timed = fresh-IsTimed chance.xmpp_state chance.on_msg_counter;
      served = omega arith;
      wired = refl;
    }

-- A node that main starts is sound.
pub main-IsSound :
    (args : List Bytes) (opened : Option Bytes) (interfaces : Option (List Interface))
    (chance : Chance) (p : Program)
    → main args opened interfaces chance ≡ some p
    → IsSound p
unfolding main
main-IsSound args opened interfaces chance p e =
    Holds-some IsSound _ p
      (Holds-bind IsSound (parse_args args k_tap_name k_udp_port) _ (λ a.
        Holds-bind IsSound opened _ (λ mac.
          Holds-bind IsSound (free_ip interfaces (init chance.tiebreaker a.0).tincan_ip4) _
            (λ ip. new_program-IsSound chance a.0 a.1 mac ip))))
      e

presence-process_peer :
    (now : ℕ) (n : Network) (s : Stanza)
    → IsOrdered (keys n.presence_time)
    → Holds (λ r. IsOrdered (keys r.0.presence_time)) (process_peer now n s)
presence-process_peer now n s h = go s.query refl
  where
    Kept : Option (Network × List XmppCall) → Type 0
    Kept = Holds (λ r. IsOrdered (keys r.0.presence_time))

    message :
        (q : Query) (o : Option (Bytes × Bytes))
        → s.query ≡ some q
        → read_query q ≡ o
        → Kept (process_peer now n s)
    message q none e f =
        let g : process_peer now n s ≡ none = unfold process_peer in ground arith in rw g tt
    message q (some (text, type)) e f =
        let g : process_peer now n s ≡ some (n, handle_peer (get_key s.from) text type ∷ []) =
          unfold process_peer in ground arith in
        rw g h

    go : (o : Option Query) → s.query ≡ o → Kept (process_peer now n s)
    go none e =
        let g : process_peer now n s ≡ some (set_time (get_key s.from) now n, []) =
          unfold process_peer in ground arith in
        rw g (unfold set_time in assign-IsOrdered (get_key s.from) now n.presence_time h)
    go (some q) e = message q (read_query q) e refl

pub presence-process_start :
    (jids : Jids) (own : Bytes) (now : ℕ) (n n' : Network) (s : Stanza) (calls : List XmppCall)
    → process_start jids own now n s ≡ some (n', calls)
    → IsOrdered (keys n.presence_time)
    → IsOrdered (keys n'.presence_time)
unfolding process_start
presence-process_start jids own now n n' s calls e h =
    Holds-some P _ (n', calls)
      (either (Holds P) (is_from_peer jids own s) _ (some (n, []))
        (presence-process_peer now (remember s n) s (unfold remember in h)) h)
      e
  where
    P : Network × List XmppCall → Type 0
    P r = IsOrdered (keys r.0.presence_time)

pub presence-on_state_change :
    (jid : Bytes) (s : State) (n : Network)
    → (on_state_change jid s n).0.presence_time ≡ n.presence_time
unfolding on_state_change
presence-on_state_change jid none_yet n = refl
presence-on_state_change jid started n = refl
presence-on_state_change jid opening n = refl
presence-on_state_change jid closed n = refl
presence-on_state_change jid open_state n = ground arith

presence-on_tick :
    (child_error : Bool) (now : ℕ) (s : State) (n : Network)
    → (on_tick child_error now s n).0.presence_time ≡ n.presence_time
unfolding on_tick
presence-on_tick child_error now none_yet n = ground arith
presence-on_tick child_error now started n = refl
presence-on_tick child_error now opening n = refl
presence-on_tick child_error now closed n = ground arith
presence-on_tick child_error now open_state n = ground arith

presence-on_message :
    (child_error : Bool) (now : ℕ) (n : Network)
    → (on_message child_error now n).0.presence_time ≡ n.presence_time
unfolding on_message
presence-on_message child_error now n =
    ground (arith, presence-on_tick child_error now n.xmpp_state n)

pub presence-deliver :
    (child_error : Bool) (now : ℕ) (n : Network)
    → (deliver child_error now n).0.presence_time ≡ n.presence_time
presence-deliver child_error now n = go n.timers refl
  where
    go :
        (ts : List ℕ)
        → n.timers ≡ ts
        → (deliver child_error now n).0.presence_time ≡ n.presence_time
    go [] e = unfold deliver in ground (arith, e)
    go (due ∷ rest) e =
        unfold deliver in
        ground (arith, e, presence-on_message child_error now (record n { timers = rest }))
