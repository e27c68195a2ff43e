-- ===== src/Program/Progress.antt =====
-- Which events of a running node their handlers take to their end.
use ipop_tincan.Xmpp.{handle_stanza}
use ipop_tincan.Program.{on_stanza}
use ipop_tincan.Prelude.{either}
use ipop_tincan.Prelude.{
  ◌⊎◌, inl, inr, Returns, bind-Returns, not_none-Returns, ℕ, zero, suc, ◌≤◌, ◌≡◌, refl, true,
  Option, some, List, [], ◌∷◌, ◌++◌, map, arith, Bytes, nat_eq, bytes_eq, inl, inr, pure, ◌>>=◌,
}
use ipop_tincan.Map.{find}
use ipop_tincan.Manager.{k_con_resp, k_con_stat, k_local_controller_id}
use ipop_tincan.Manager.Candidates.{spaced}
use ipop_tincan.Manager.Types.{Peer, send_to_peer, watch_port}
use ipop_tincan.Manager.Queues.{Queues, do_packet_recv}
use ipop_tincan.Manager.Packets.Delivery.{dispatched-cases}
use ipop_tincan.Manager.Candidates.Slots.{
  on_candidates_ready-live, on_candidates_allocation_done-live, on_rw_change_state-live,
}
use ipop_tincan.Manager.Signals
use ipop_tincan.Xmpp.{Network, XmppCall, Stanza, is_from_peer, process_start}
use ipop_tincan.Xmpp
use ipop_tincan.Xmpp.Messages.{LacksType, process_start-none}
use ipop_tincan.Controller.Answering.{IsRequest, handle_packet-IsRequest}
use ipop_tincan.Controller.Framing.{IsData, handle_packet-IsData}
use ipop_tincan.Controller.{Env, Effect, xmpp}
use ipop_tincan.Program.{
  Program, Event, services, datagram, candidates_ready, allocation_done, rw_changed, link_packet,
  relay_connection, tap_sends, tap_reads, queue_signal, stanza, timer, request_signaling, engine,
  with_network, send_through, carry, carry_all, carry_xmpp, on_queue_signal, moment, step,
}
use ipop_tincan.Program.Sound.{IsSound}
use ipop_tincan.Program.Keeping.{Allowed}
use ipop_tincan.Program.Wiring.{send_through-services}

-- What a handler asks beyond an allowed event: a link of overlay 0 or 1, a packet to read, and a
-- stanza whose data has a type. A datagram carries a packet, or a request whose members have the types
-- that the code converts them to.
abbrev pub Answerable : Env → Event → Program → Type 0
Answerable env (datagram packet behind addr) p =
    (version kind : ℕ) × (payload : Bytes) × (packet ≡ version ∷ kind ∷ payload)
    × (IsData kind ⊎ IsRequest env p.controller version kind payload behind)
Answerable env (candidates_ready t cs) p = Unit {0}
Answerable env (allocation_done t) p =
    (uid : Bytes) × (peer : Peer) × (find t p.controller.manager.transport_map ≡ some uid)
    × (find uid p.controller.manager.uid_map ≡ some peer)
    × (peer.overlay_id ≤ 1)
Answerable env (rw_changed t) p = Unit {0}
Answerable env (link_packet channel packet) p = Unit {0}
Answerable env (relay_connection is_relay connection) p = Unit {0}
Answerable env (tap_sends packet) p = Unit {0}
Answerable env (tap_reads len) p =
    (packet : Bytes) × (rest : List Bytes) × (p.controller.queues.recv_queue ≡ packet ∷ rest)
Answerable env (queue_signal unset) p = Unit {0}
Answerable env (stanza own s) p = ¬ ((is_from_peer env.jids own s ≡ true) × LacksType s)
Answerable env (timer child_error) p = Unit {0}
Answerable env (request_signaling t) p = Unit {0}
Answerable env (engine jid state) p = Unit {0}

module _ (env : Env) (p : Program) (wired : p.services ≡ services) where
  send_through-Returns :
      (overlay_id : ℕ) (uid text type : Bytes)
      → overlay_id ≤ 1
      → Returns (send_through env p overlay_id uid text type)
  send_through-Returns zero uid text type h =
      (_, (send_through-services env p uid text type wired).0)
  send_through-Returns (suc zero) uid text type h =
      (_, (send_through-services env p uid text type wired).1)
  send_through-Returns (suc (suc n)) uid text type h = absurd (omega arith)

  -- A notice through the signal sender and then calls of the library.
  carry_all-Returns :
      (overlay_id : ℕ) (uid text type : Bytes) (ports : List ℕ)
      → overlay_id ≤ 1
      → Returns (carry_all env p (send_to_peer overlay_id uid text type ∷ map watch_port ports))
  unfolding carry_all carry
  carry_all-Returns overlay_id uid text type ports h =
      bind-Returns (send_through env p overlay_id uid text type) _
        (send_through-Returns overlay_id uid text type h)
        (λ effects e.
          bind-Returns (carry_all env p (map watch_port ports)) _ (watched ports)
            (λ more f. (_, refl)))
    where
      watched : (ns : List ℕ) → Returns (carry_all env p (map watch_port ns))
      watched [] = (_, refl)
      watched (n ∷ ns) =
          bind-Returns (carry_all env p (map watch_port ns)) _ (watched ns) (λ more f. (_, refl))

  then-Returns :
      (x : XmppCall) (o : Option (List Effect))
      → Returns o
      → Returns (o >>= λ more. pure (xmpp x ∷ more))
  then-Returns x o r = bind-Returns o _ r (λ more e. (_, refl))

  -- Every signal of the XMPP network finds the controller.
  carry_xmpp-Returns : (calls : List XmppCall) → Returns (carry_xmpp env p calls)
  unfolding carry_xmpp
  carry_xmpp-Returns [] = (_, refl)
  carry_xmpp-Returns (Xmpp.handle_peer uid text type ∷ calls) =
      bind-Returns (carry_all env p (Signals.handle_peer uid text type)) _
        (unfold Signals.handle_peer in
          carry_all-Returns k_local_controller_id uid text type [] (omega arith))
        (λ effects e.
          bind-Returns (carry_xmpp env p calls) _ (carry_xmpp-Returns calls) (λ more f. (_, refl)))
  carry_xmpp-Returns (Xmpp.do_login x ∷ calls) =
      then-Returns (Xmpp.do_login x) _ (carry_xmpp-Returns calls)
  carry_xmpp-Returns (Xmpp.do_disconnect ∷ calls) =
      then-Returns Xmpp.do_disconnect _ (carry_xmpp-Returns calls)
  carry_xmpp-Returns (Xmpp.send_presence ∷ calls) =
      then-Returns Xmpp.send_presence _ (carry_xmpp-Returns calls)
  carry_xmpp-Returns (Xmpp.start_ping ∷ calls) =
      then-Returns Xmpp.start_ping _ (carry_xmpp-Returns calls)
  carry_xmpp-Returns (Xmpp.start_task ∷ calls) =
      then-Returns Xmpp.start_task _ (carry_xmpp-Returns calls)
  carry_xmpp-Returns (Xmpp.send_stanza jid text type ∷ calls) =
      then-Returns (Xmpp.send_stanza jid text type) _ (carry_xmpp-Returns calls)

do_packet_recv-Returns :
    (q : Queues) (len : ℕ) (packet : Bytes) (rest : List Bytes)
    → q.recv_queue ≡ packet ∷ rest
    → Returns (do_packet_recv q len)
unfolding do_packet_recv
do_packet_recv-Returns q len packet rest e = rw e (_, refl)

on_stanza-Returns :
    (env : Env) (own : Bytes) (x : Stanza) (p : Program)
    → p.services ≡ services
    → ¬ ((is_from_peer env.jids own x ≡ true) × LacksType x)
    → Returns (on_stanza env own x p)
unfolding on_stanza
on_stanza-Returns env own x p wired h =
    bind-Returns (process_start env.jids own env.now p.controller.network x) _
      (not_none-Returns _
        (λ e. h ((process_start-none env.jids own env.now p.controller.network x).0 e)))
      (λ r f.
        bind-Returns _ _ (carry_xmpp-Returns env (with_network p r.0) wired r.1)
          (λ effects g. (_, refl)))

-- In a sound state the handler of an allowed event always returns, and goes through no null pointer:
-- for a datagram that carries a packet; for one with a request whose members have the types that the
-- code converts them to, if it has no zero byte, one follows it in memory, and every link that is
-- online has its channel; for a transport's last candidate if its link is of overlay 0 or 1; for a
-- read of the device if a packet waits; for a stanza unless it is a peer's with data and no type; and
-- for every other event.
pub step_total :
    (env : Env) (e : Event) (p : Program)
    → IsSound p
    → Allowed env e p
    → Answerable env e p
    → Returns (step env e p)
unfolding step
step_total env (datagram packet behind addr) p s a (version, kind, payload, e, inl carries) =
    let (c, f) = handle_packet-IsData env p.controller version kind payload behind addr carries in
    rw (e, f) (_, refl)
step_total env (datagram packet behind addr) p s a (version, kind, payload, e, inr asks) =
    let (r, f) = handle_packet-IsRequest env p.controller version kind payload behind addr asks in
    rw (e, f) (_, refl)
step_total env (candidates_ready t cs) p s (uid, live) h =
    let (m, e, c) = on_candidates_ready-live p.controller.manager s.tables t uid live env.lib cs in
    rw e (_, refl)
step_total env (allocation_done t) p s (uid, live) (u, q, e1, e2, low) =
    let (peer, there, e) =
      on_candidates_allocation_done-live p.controller.manager s.tables t uid live in
    rw e (
      bind-Returns _ _
        (carry_all-Returns env p s.wired peer.overlay_id uid
          (p.controller.manager.fingerprint ++ spaced peer.candidate_list) k_con_resp []
          (ground arith))
        (λ effects f. (_, refl)))
step_total env (rw_changed t) p s (uid, live) h =
    let (text, ports, e) =
      on_rw_change_state-live p.controller.manager s.tables t uid live env.net in
    rw e (
      bind-Returns _ _
        (carry_all-Returns env p s.wired k_local_controller_id uid text k_con_stat ports
          (omega arith))
        (λ effects f. (_, refl)))
step_total env (link_packet channel packet) p s a h = (_, refl)
step_total env (relay_connection is_relay connection) p s a h = (_, refl)
step_total env (tap_sends packet) p s a h = (_, refl)
step_total env (tap_reads len) p s a (packet, rest, e) =
    bind-Returns _ _ (do_packet_recv-Returns p.controller.queues len packet rest e)
      (λ r f. (_, refl))
step_total env (queue_signal unset) p s a h =
    let q = p.controller.queues in
    unfold on_queue_signal in
    elim (dispatched-cases env.lib (moment env unset p) q q.posted q.send_queue refl refl
      s.served) [
        | inl (empty, e) ↦ rw e (_, refl)
        | inr (packet, q', f, more, same, k, e) ↦ rw e (_, refl)
      ]
step_total env (stanza own x) p s a h =
    either Returns (handle_stanza x) _ _ (on_stanza-Returns env own x p s.wired h) (_, refl)
step_total env (timer child_error) p s a h = (_, refl)
step_total env (request_signaling t) p s a h = (_, refl)
step_total env (engine jid state) p s a h = (_, refl)
