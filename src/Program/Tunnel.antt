-- ===== src/Program/Tunnel.antt =====
-- The way of packets from the tap device of one node to that of another: DoPacketSend, OnMessage and
-- HandlePacket of src/tincanconnectionmanager.cc, and at the other end OnReadPacket and DoPacketRecv.
use ipop_tincan.Prelude.{
  ℕ, zero, suc, ◌+◌, ◌≤◌, ◌≡◌, refl, ap, sym, ◌∙◌, true, Option, none, some, List, [], ◌∷◌, ◌++◌,
  append-nil, append_assoc, map, length, arith, Bytes, nat_eq, bytes_eq, nat_beq, nat_beq_iff,
  if◌then◌else◌, pure, ◌>>=◌,
}
use ipop_tincan.Map.{find}
use ipop_tincan.Manager.{Libjingle, short_uid}
use ipop_tincan.Manager.Types.{Peer, channel_send}
use ipop_tincan.Manager.Queues.{Queues, do_packet_send, do_packet_recv}
use ipop_tincan.Manager.Packets.{source_id, on_message, handle_packet}
use ipop_tincan.Manager.Packets.Delivery.{Moment, dispatched}
use ipop_tincan.Manager.Packets.Routing.{p2p_channel, handle_packet-p2p_channel}
use ipop_tincan.Manager.Packets.Admission.{on_read_packet_complete}
use ipop_tincan.Controller.{Env, Effect, libjingle}
use ipop_tincan.Program.{
  Program, Event, tap_sends, queue_signal, link_packet, with_queues, on_queue_signal, moment, step,
}

-- One event after the other, with all their effects.
unfoldable pub run : Env → List Event → Program → Option (Program × List Effect)
run env [] p = some (p, [])
run env (e ∷ es) p = do
  (p', effects) ← step env e p
  (p'', more) ← run env es p'
  pure (p'', effects ++ more)

-- Reads of the device's writer, with the packets that they give.
unfoldable pub reads : ℕ → ℕ → Queues → Option (Queues × List Bytes)
reads len zero q = some (q, [])
reads len (suc n) q = do
  (q', packet) ← do_packet_recv q len
  (q'', packets) ← reads len n q'
  pure (q'', (elim packet [ none ↦ packets | some bytes ↦ bytes ∷ packets ]))

-- What comes out at the end `far` of a channel whose other end is `near`, in order.
unfoldable pub arrivals : ℕ → ℕ → List Effect → List Event
arrivals near far [] = []
arrivals near far (libjingle (channel_send c packet) ∷ effects) =
    let rest = arrivals near far effects in
    if nat_beq c near then link_packet far packet ∷ rest else rest
arrivals near far (effect ∷ effects) = arrivals near far effects

abbrev pub signals : ℕ → List Bytes → List Event
signals unset [] = []
signals unset (packet ∷ packets) = queue_signal unset ∷ signals unset packets

abbrev pub sent : ℕ → List Bytes → List Effect
sent channel [] = []
sent channel (packet ∷ packets) = libjingle (channel_send channel packet) ∷ sent channel packets

-- Every packet holds for the predicate.
abbrev pub All {ℓ} : (Bytes → Type ℓ) → List Bytes → Type ℓ
All P [] = Unit
All P (packet ∷ packets) = P packet × All P packets

bind-pure {ℓ κ} :
    {A : Type ℓ} {B : Type κ} (o : Option (A × List B)) → (o >>= λ r. pure (r.0, [] ++ r.1)) ≡ o
bind-pure none = refl
bind-pure (some r) = refl

abbrev queued : Queues → List Bytes → Queues
queued q packets = record q {
  send_queue = q.send_queue ++ packets;
  posted = length packets + q.posted;
}

queued-step :
    (q : Queues) (packet : Bytes) (packets : List Bytes)
    → q.has_manager ≡ true
    → queued (do_packet_send q packet).0 packets ≡ queued q (packet ∷ packets)
unfolding do_packet_send
queued-step q packet packets h = ground (arith, h, append_assoc q.send_queue (packet ∷ []) packets)

waiting-kept :
    (q : Queues) (packets : List Bytes) (n : ℕ)
    → q.send_queue ≡ packets
    → q.posted ≡ n
    → q ≡ record q { send_queue = packets; posted = n }
waiting-kept q packets n e f = ground arith

-- What a posted message takes.
dispatched-packet :
    (lib : Libjingle) (w : Moment) (q : Queues) (packet : Bytes) (packets : List Bytes) (n : ℕ)
    → q.send_queue ≡ packet ∷ packets
    → q.posted ≡ suc n
    → dispatched lib w q
      ≡ some (
        record q { send_queue = packets; posted = n },
        handle_packet lib w.net w.unset w.manager packet,
      )
unfolding dispatched on_message
dispatched-packet lib w q packet packets n e f = ground arith

run-tap_sends :
    (env : Env) (p : Program) (packets : List Bytes) (es : List Event)
    → p.controller.queues.has_manager ≡ true
    → run env (map tap_sends packets ++ es) p
      ≡ run env es (with_queues p (queued p.controller.queues packets))
unfolding run step
run-tap_sends env p [] es h =
    ap (λ q. run env es (with_queues p q))
      (waiting-kept p.controller.queues (p.controller.queues.send_queue ++ [])
        (0 + p.controller.queues.posted) (sym (append-nil p.controller.queues.send_queue))
        (omega arith))
run-tap_sends env p (packet ∷ packets) es h =
    let q = (do_packet_send p.controller.queues packet).0 in
    bind-pure _
    ∙ run-tap_sends env (with_queues p q) packets es (unfold do_packet_send in h)
    ∙ ap (λ q. run env es (with_queues p q)) (queued-step p.controller.queues packet packets h)

-- Every posted message takes one packet, which goes over its channel.
run-signals :
    (env : Env) (p : Program) (unset channel : ℕ) (packets : List Bytes)
    → p.controller.queues.send_queue ≡ packets
    → p.controller.queues.posted ≡ length packets
    → All
        (λ packet.
          (40 ≤ length packet)
          × (p2p_channel env.lib env.net p.controller.manager packet ≡ some channel))
        packets
    → run env (signals unset packets) p
      ≡ some (
        with_queues p (record p.controller.queues { send_queue = []; posted = 0 }),
        sent channel packets,
      )
unfolding run
run-signals env p unset channel [] e f h =
    ap (λ q. some (with_queues p q, [])) (waiting-kept p.controller.queues [] 0 e f)
run-signals env p unset channel (packet ∷ packets) e f ((long, up), h) =
    let q = record p.controller.queues { send_queue = packets; posted = length packets } in
    let handled : step env (queue_signal unset) p
        ≡ some (with_queues p q, libjingle (channel_send channel packet) ∷ []) =
      unfold step in
      unfold on_queue_signal in
      rw
        (
          dispatched-packet env.lib (moment env unset p) p.controller.queues packet packets
              (length packets) e f,
          handle_packet-p2p_channel env.lib env.net unset p.controller.manager packet long,
          up,
        )
        refl in
    let rest = run-signals env (with_queues p q) unset channel packets refl refl h in
    rw (handled, rest) refl

received-kept :
    (q : Queues) (packets : List Bytes)
    → q.recv_queue ≡ packets
    → q ≡ record q { recv_queue = packets }
received-kept q packets e = ground arith

-- A packet of a peer's link waits for the device.
run-arrivals :
    (env : Env) (p : Program) (uid : Bytes) (peer : Peer) (near far : ℕ) (packets : List Bytes)
    → find (short_uid uid) p.controller.manager.short_uid_map ≡ some peer.transport
    → env.net.get_channel peer.transport ≡ some far
    → All (λ packet. (40 ≤ length packet) × (source_id env.lib packet ≡ short_uid uid)) packets
    → run env (arrivals near far (sent near packets)) p
      ≡ some (
        with_queues p
            (record p.controller.queues { recv_queue = p.controller.queues.recv_queue ++ packets }),
        [],
      )
unfolding run arrivals
run-arrivals env p uid peer near far [] known up h =
    ap (λ q. some (with_queues p q, []))
      (received-kept p.controller.queues (p.controller.queues.recv_queue ++ [])
        (sym (append-nil p.controller.queues.recv_queue)))
run-arrivals env p uid peer near far (packet ∷ packets) known up ((long, from), h) =
    let q = p.controller.queues in
    let got : step env (link_packet far packet) p
        ≡ some (with_queues p (record q { recv_queue = q.recv_queue ++ packet ∷ [] }), []) =
      unfold step in
      ap (λ q. some (with_queues p q, []))
        (on_read_packet_complete env.lib env.net p.controller.manager q uid peer far packet known up
          from long) in
    let rest =
      run-arrivals env (with_queues p (record q { recv_queue = q.recv_queue ++ packet ∷ [] })) uid
        peer near far packets known up h in
    rw ((nat_beq_iff near near).1 refl, got, rest, append_assoc) refl

reads-All :
    (len : ℕ) (packets : List Bytes) (q : Queues)
    → q.recv_queue ≡ packets
    → All (λ packet. length packet ≤ len) packets
    → reads len (length packets) q ≡ some (record q { recv_queue = [] }, packets)
unfolding reads do_packet_recv
reads-All len [] q e h = ap (λ q. some (q, [])) (received-kept q [] e)
reads-All len (packet ∷ packets) q e (fits, h) =
    let rest = reads-All len packets (record q { recv_queue = packets }) refl h in
    ground (arith, e, rest)

-- The first of two predicates.
All-map {ℓ κ} :
    {P : Bytes → Type ℓ} {Q : Bytes → Type κ} (packets : List Bytes)
    → ((packet : Bytes) → P packet → Q packet)
    → All P packets
    → All Q packets
All-map [] f h = tt
All-map (packet ∷ packets) f (h, hs) = (f packet h, All-map packets f hs)

-- The receiver has a link to the peer of id `uid`, and its end is the channel `far`.
pub record IsJoined (there : Env) (receiver : Program) (far : ℕ) (uid : Bytes) : Type 0 where
  pub peer : Peer
  pub known : find (short_uid uid) receiver.controller.manager.short_uid_map ≡ some peer.transport
  pub up : there.net.get_channel peer.transport ≡ some far

-- A packet that the sender has a channel for, under the id by which the receiver knows it, and that
-- fits the receiver's buffer.
abbrev pub Fits : Env → Env → Program → ℕ → Bytes → ℕ → Bytes → Type 0
Fits here there sender near uid len packet =
    (40 ≤ length packet)
    × (length packet ≤ len)
    × (p2p_channel here.lib here.net sender.controller.manager packet ≡ some near)
    × (source_id there.lib packet ≡ short_uid uid)

pub packets-roundtrip :
    (here there : Env) (sender receiver : Program) (unset near far len : ℕ) (uid : Bytes)
    (packets : List Bytes)
    → IsJoined there receiver far uid
    → sender.controller.queues.has_manager ≡ true
    → sender.controller.queues.send_queue ≡ []
    → sender.controller.queues.posted ≡ 0
    → receiver.controller.queues.recv_queue ≡ []
    → All (Fits here there sender near uid len) packets
    → (sender' receiver' : Program) × (effects : List Effect) × (run here
          (map tap_sends packets ++ signals unset packets)
          sender
        ≡ some (sender', effects))
      × (run there (arrivals near far effects) receiver ≡ some (receiver', []))
      × (reads len (length packets) receiver'.controller.queues
          ≡ some (receiver.controller.queues, packets))
packets-roundtrip here there sender receiver unset near far len uid packets link wakes idle
      none_posted empty fits =
    let q = sender.controller.queues in
    let r = receiver.controller.queues in
    (
      _,
      _,
      _,
      run-tap_sends here sender packets (signals unset packets) wakes
          ∙ run-signals here (with_queues sender (queued q packets)) unset near packets
              (rw idle refl) (ground (arith, none_posted))
              (All-map packets (λ p h. (h.0, h.2)) fits),
      run-arrivals there receiver uid link.peer near far packets link.known link.up
          (All-map packets (λ p h. (h.0, h.3)) fits),
      reads-All len packets (record r { recv_queue = r.recv_queue ++ packets }) (rw empty refl)
            (All-map packets (λ p h. h.1) fits)
          ∙ ap (λ q. some (q, packets)) (sym (received-kept r [] empty)),
    )
