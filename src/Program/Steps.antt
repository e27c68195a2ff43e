-- ===== src/Program/Steps.antt =====
-- The histories of a running node that main of src/tincan.cc has started.
use ipop_tincan.Prelude.{◌≡◌, Option, some, List, Bytes, nat_eq, bytes_eq, Holds-some}
use ipop_tincan.Manager.Packets.Delivery.{do_packet_send-IsServed}
use ipop_tincan.Controller.{Env, Effect}
use ipop_tincan.Program.{
  Program, Chance, Event, datagram, candidates_ready, allocation_done, rw_changed, link_packet,
  relay_connection, tap_sends, tap_reads, queue_signal, stanza, timer, request_signaling, engine,
  step, main,
}
use ipop_tincan.Start.{Interface}
use ipop_tincan.Program.Sound.{IsSound, main-IsSound}
use ipop_tincan.Program.Keeping.{
  Allowed, Keeps, with_queues-IsSound, datagram-Keeps, candidates_ready-Keeps,
  allocation_done-Keeps, rw_changed-Keeps, link_packet-Keeps, tap_reads-Keeps, queue_signal-Keeps,
  stanza-Keeps, timer-Keeps, engine-Keeps,
}

-- An allowed event keeps a running node sound, if its handler returns.
pub step-Keeps :
    (env : Env) (e : Event) (p : Program) → IsSound p → Allowed env e p → Keeps (step env e p)
step-Keeps env (datagram packet behind addr) p s a = datagram-Keeps env p s packet behind addr a
step-Keeps env (candidates_ready t cs) p s (uid, live) =
    candidates_ready-Keeps env p s t uid live cs
step-Keeps env (allocation_done t) p s (uid, live) = allocation_done-Keeps env p s t uid live
step-Keeps env (rw_changed t) p s (uid, live) = rw_changed-Keeps env p s t uid live
step-Keeps env (link_packet channel packet) p s a = link_packet-Keeps env p s channel packet
step-Keeps env (relay_connection is_relay connection) p s a = unfold step in s
step-Keeps env (tap_sends packet) p s a =
    unfold step in
    with_queues-IsSound env p s _ (do_packet_send-IsServed p.controller.queues packet s.served)
step-Keeps env (tap_reads len) p s a = tap_reads-Keeps env p s len
step-Keeps env (queue_signal unset) p s a = queue_signal-Keeps env p s unset
step-Keeps env (stanza own x) p s a = stanza-Keeps env p s own x
step-Keeps env (timer child_error) p s a = timer-Keeps env p s child_error
step-Keeps env (request_signaling t) p s a = unfold step in s
step-Keeps env (engine jid state) p s a = engine-Keeps env p s jid state

-- The programs that can be reached from one: each step is allowed, and its handler returns.
pub data Reach (p : Program) : Program → Type 0 where
  here : Reach p p
  next :
      {q q' : Program} (env : Env) (e : Event) (effects : List Effect)
      → Reach p q
      → Allowed env e q
      → step env e q ≡ some (q', effects)
      → Reach p q'

pub Reach-IsSound : {p q : Program} → IsSound p → Reach p q → IsSound q
Reach-IsSound s here = s
Reach-IsSound s (next {q} {q'} env e effects r a f) =
    Holds-some (λ x. IsSound x.0) (step env e q) (q', effects)
      (step-Keeps env e q (Reach-IsSound s r) a) f

-- In every state that a node reaches from its start, by datagrams of the controller, signals of live
-- transports, packets, stanzas and timers in any order: the three tables of links agree, a method
-- means what init_map says, friends are kept in order and each once, the session has its timer,
-- every posted message has its packet, and the services are those of main.
pub Reach-main-IsSound :
    (args : List Bytes) (opened : Option Bytes) (interfaces : Option (List Interface))
    (chance : Chance) (p q : Program)
    → main args opened interfaces chance ≡ some p
    → Reach p q
    → IsSound q
Reach-main-IsSound args opened interfaces chance p q e r =
    Reach-IsSound (main-IsSound args opened interfaces chance p e) r
