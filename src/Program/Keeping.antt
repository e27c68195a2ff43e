-- ===== src/Program/Keeping.antt =====
-- The handlers of src/tincan.cc's events, one by one, and what holds of a running node.
use ipop_tincan.Xmpp.{handle_stanza}
use ipop_tincan.Program.{on_stanza}
use ipop_tincan.Prelude.{either}
use ipop_tincan.Prelude.{
  ℕ, ◌≡◌, refl, Bool, Option, none, some, List, [], ◌∷◌, ◌++◌, arith, Bytes, nat_eq, bytes_eq,
  Holds, map, inl, inr, pure, ◌>>=◌,
}
use ipop_tincan.Map.{find}
use ipop_tincan.StringSet.{IsOrdered}
use ipop_tincan.Table.{keys}
use ipop_tincan.Manager.{Manager, k_con_resp, k_con_stat, k_local_controller_id}
use ipop_tincan.Manager.Candidates.{spaced}
use ipop_tincan.Manager.Types.{Address, Candidate, send_to_peer, watch_port}
use ipop_tincan.Manager.Links.Safety.{IsConsistent}
use ipop_tincan.Manager.Queues.{Queues, do_packet_recv}
use ipop_tincan.Manager.Packets.{on_read_packet}
use ipop_tincan.Manager.Packets.Delivery.{IsServed, dispatched-cases}
use ipop_tincan.Manager.Candidates.Slots.{
  on_candidates_ready-live, on_candidates_allocation_done-live, on_rw_change_state-live,
}
use ipop_tincan.Xmpp.{Network, XmppCall, Stanza, process_start}
use ipop_tincan.Xmpp
use ipop_tincan.Xmpp.Timer.{deliver}
use ipop_tincan.Xmpp.Session.{
  IsTimed, after, deliver-IsTimed, on_state_change-same, process_start-same, IsTimed-same,
}
use ipop_tincan.Controller.{Controller, Env, Effect}
use ipop_tincan.Controller.Requests.{handle_packet}
use ipop_tincan.Controller.Safety.{handle_packet-IsConsistent}
use ipop_tincan.Program.{
  Program, Event, datagram, candidates_ready, allocation_done, rw_changed, link_packet,
  relay_connection, tap_sends, tap_reads, queue_signal, stanza, timer, request_signaling, engine,
  with_manager, with_queues, with_network, carry_all, carry_xmpp, on_queue_signal, moment, step,
}
use ipop_tincan.Program.Sound.{
  IsSound, presence-process_start, presence-on_state_change, presence-deliver,
}

-- What the environment keeps to: a new transport gets an address that no live one has, and the
-- signals of a transport come while it lives.
abbrev pub Allowed : Env → Event → Program → Type 0
Allowed env (datagram packet behind addr) p =
    find env.fresh.transport p.controller.manager.transport_map ≡ none
Allowed env (candidates_ready t cs) p =
    (uid : Bytes) × (find t p.controller.manager.transport_map ≡ some uid)
Allowed env (allocation_done t) p =
    (uid : Bytes) × (find t p.controller.manager.transport_map ≡ some uid)
Allowed env (rw_changed t) p =
    (uid : Bytes) × (find t p.controller.manager.transport_map ≡ some uid)
Allowed env (link_packet channel packet) p = Unit {0}
Allowed env (relay_connection is_relay connection) p = Unit {0}
Allowed env (tap_sends packet) p = Unit {0}
Allowed env (tap_reads len) p = Unit {0}
Allowed env (queue_signal unset) p = Unit {0}
Allowed env (stanza own s) p = Unit {0}
Allowed env (timer child_error) p = Unit {0}
Allowed env (request_signaling t) p = Unit {0}
Allowed env (engine jid state) p = Unit {0}

-- A result whose program is sound.
abbrev pub Keeps : Option (Program × List Effect) → Type 0
Keeps = Holds (λ r. IsSound r.0)

on_read_packet-IsServed :
    (env : Env) (c : Controller) (channel : ℕ) (packet : Bytes)
    → IsServed c.queues
    → IsServed (on_read_packet env.lib env.net c.manager c.queues channel packet)
unfolding on_read_packet
on_read_packet-IsServed env c channel packet h = ground arith

do_packet_recv-IsServed :
    (q q' : Queues) (len : ℕ) (packet : Option Bytes)
    → IsServed q
    → do_packet_recv q len ≡ some (q', packet)
    → IsServed q'
unfolding do_packet_recv
do_packet_recv-IsServed q q' len packet h e = ground arith

module _ (env : Env) (p : Program) (s : IsSound p) where
  with_manager-IsSound : (m : Manager) → IsConsistent m → IsSound (with_manager p m)
  with_manager-IsSound m c = record {
    tables = c;
    methods = s.methods;
    friends = s.friends;
    timed = s.timed;
    served = s.served;
    wired = s.wired;
  }

  pub with_queues-IsSound : (q : Queues) → IsServed q → IsSound (with_queues p q)
  with_queues-IsSound q h = record {
    tables = s.tables;
    methods = s.methods;
    friends = s.friends;
    timed = s.timed;
    served = h;
    wired = s.wired;
  }

  with_network-IsSound :
      (n : Network) → IsOrdered (keys n.presence_time) → IsTimed n → IsSound (with_network p n)
  with_network-IsSound n o t = record {
    tables = s.tables;
    methods = s.methods;
    friends = o;
    timed = t;
    served = s.served;
    wired = s.wired;
  }

  pub datagram-Keeps :
      (packet behind : Bytes) (addr : Address)
      → find env.fresh.transport p.controller.manager.transport_map ≡ none
      → Keeps (step env (datagram packet behind addr) p)
  unfolding step
  datagram-Keeps packet behind addr fresh =
      go (handle_packet env p.controller packet behind addr) refl
    where
      go :
          (o : Option (Controller × List Effect))
          → handle_packet env p.controller packet behind addr ≡ o
          → Keeps (o >>= λ r. pure (record p { controller = r.0 }, r.1))
      go none e = tt
      go (some (c, effects)) e =
          let (tables, methods, (timed, heard, jids), served) =
            handle_packet-IsConsistent env p.controller c packet behind addr effects s.tables
              s.methods fresh e in
          record {
            tables = tables;
            methods = methods;
            friends = rw heard s.friends;
            timed = timed s.timed;
            served = served s.served;
            wired = s.wired;
          }

  -- The calls of a handler, carried to their ends, leave the program that the handler made.
  carried-Keeps :
      (p' : Program) (o : Option (List Effect))
      → IsSound p'
      → Keeps (o >>= λ effects. pure (p', effects))
  carried-Keeps p' none h = tt
  carried-Keeps p' (some effects) h = h

  module _ (t : ℕ) (uid : Bytes) (live : find t p.controller.manager.transport_map ≡ some uid) where
    pub candidates_ready-Keeps : (cs : List Candidate) → Keeps (step env (candidates_ready t cs) p)
    unfolding step
    candidates_ready-Keeps cs =
        let (m, e, c) =
          on_candidates_ready-live p.controller.manager s.tables t uid live env.lib cs in
        rw e (with_manager-IsSound m c)

    pub allocation_done-Keeps : Keeps (step env (allocation_done t) p)
    unfolding step
    allocation_done-Keeps =
        let (peer, there, e) =
          on_candidates_allocation_done-live p.controller.manager s.tables t uid live in
        rw e (
          carried-Keeps p
            (carry_all env p (
              send_to_peer peer.overlay_id uid
                (p.controller.manager.fingerprint ++ spaced peer.candidate_list) k_con_resp
              ∷ []))
            s)

    pub rw_changed-Keeps : Keeps (step env (rw_changed t) p)
    unfolding step
    rw_changed-Keeps =
        let (text, ports, e) =
          on_rw_change_state-live p.controller.manager s.tables t uid live env.net in
        rw e (
          carried-Keeps p
            (carry_all env p
              (send_to_peer k_local_controller_id uid text k_con_stat ∷ map watch_port ports))
            s)

  pub link_packet-Keeps :
      (channel : ℕ) (packet : Bytes) → Keeps (step env (link_packet channel packet) p)
  unfolding step
  link_packet-Keeps channel packet =
      with_queues-IsSound _ (on_read_packet-IsServed env p.controller channel packet s.served)

  pub tap_reads-Keeps : (len : ℕ) → Keeps (step env (tap_reads len) p)
  unfolding step
  tap_reads-Keeps len = go (do_packet_recv p.controller.queues len) refl
    where
      go :
          (o : Option (Queues × Option Bytes))
          → do_packet_recv p.controller.queues len ≡ o
          → Keeps (o >>= λ r. pure (with_queues p r.0, []))
      go none e = tt
      go (some (q, packet)) e =
          with_queues-IsSound q
            (do_packet_recv-IsServed p.controller.queues q len packet s.served e)

  pub queue_signal-Keeps : (unset : ℕ) → Keeps (step env (queue_signal unset) p)
  unfolding step on_queue_signal
  queue_signal-Keeps unset =
      let q = p.controller.queues in
      elim (dispatched-cases env.lib (moment env unset p) q q.posted q.send_queue refl refl
        s.served) [
          | inl (empty, e) ↦ rw e (with_queues-IsSound q s.served)
          | inr (packet, q', f, more, same, h, e) ↦ rw e (with_queues-IsSound q' h)
        ]

  on_stanza-Keeps : (own : Bytes) (x : Stanza) → Keeps (on_stanza env own x p)
  unfolding on_stanza
  on_stanza-Keeps own x = go (process_start env.jids own env.now p.controller.network x) refl
    where
      go :
          (o : Option (Network × List XmppCall))
          → process_start env.jids own env.now p.controller.network x ≡ o
          → Keeps (
              o >>= λ r. carry_xmpp env (with_network p r.0) r.1 >>= λ effects.
              pure (with_network p r.0, effects))
      go none e = tt
      go (some (n, calls)) e =
          let same = process_start-same env.jids own env.now p.controller.network x in
          let there : after p.controller.network
                (process_start env.jids own env.now p.controller.network x)
              ≡ n =
            rw e refl in
          carried-Keeps (with_network p n) _ (
            with_network-IsSound n
              (presence-process_start env.jids own env.now p.controller.network n x calls e
                s.friends)
              (IsTimed-same p.controller.network n (ground (arith, e, same))
                (ground (arith, e, same)) s.timed))

  pub stanza-Keeps : (own : Bytes) (x : Stanza) → Keeps (step env (stanza own x) p)
  unfolding step
  stanza-Keeps own x = either Keeps (handle_stanza x) _ _ (on_stanza-Keeps own x) s

  pub timer-Keeps : (child_error : Bool) → Keeps (step env (timer child_error) p)
  unfolding step
  timer-Keeps child_error =
      let n = p.controller.network in
      with_network-IsSound (deliver child_error env.now n).0
        (rw (presence-deliver child_error env.now n) s.friends)
        (deliver-IsTimed child_error env.now n n.pump n.timers refl refl s.timed)

  pub engine-Keeps : (jid : Bytes) (state : Xmpp.State) → Keeps (step env (engine jid state) p)
  unfolding step
  engine-Keeps jid state =
      let n = p.controller.network in
      let (timers, pump) = on_state_change-same jid state n in
      with_network-IsSound (Xmpp.on_state_change jid state n).0
        (rw (presence-on_state_change jid state n) s.friends) (IsTimed-same n _ timers pump s.timed)
