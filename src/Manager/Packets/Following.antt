-- ===== src/Manager/Packets/Following.antt =====
-- How packets follow the links: HandlePacket and OnReadPacket after a history of CreateTransport and
-- DestroyTransport.
use ipop_tincan.Prelude.{
  ℕ, ◌≤◌, ◌≡◌, ◌≢◌, refl, sym, ap, ◌∙◌, ◌↔◌, inl, inr, true, Option, none, some, List, [], ◌∷◌,
  ◌++◌, arith, Bytes, nat_eq, bytes_eq, length, take, length-append, Option-cases, Bool-cases,
}
use ipop_tincan.Map.{find}
use ipop_tincan.Manager.{Manager, Libjingle, Net, init, short_uid, k_null_peer_id}
use ipop_tincan.Manager.Types.{Address, Peer, Call, channel_send, forward_send}
use ipop_tincan.Manager.Queues.{Queues}
use ipop_tincan.Manager.Links.Safety.{Owner}
use ipop_tincan.Manager.Links.Directory.{History, History-Owner}
use ipop_tincan.Manager.Packets.{source_id, dest_id, handle_packet, on_read_packet}
use ipop_tincan.Manager.Packets.Routing.{
  p2p_channel, icc_type, message_type-icc_type, handle_packet-p2p_channel,
}
use ipop_tincan.Manager.Links.{destroy_transport}
use ipop_tincan.Manager.Links.Reachability.{destroy_transport-hides}
use ipop_tincan.Wire.{frame}
use ipop_tincan.Manager.Packets.Admission.{on_read_packet-hit, on_read_packet-cases}

-- A live peer has the short id, and its transport the channel.
abbrev pub Over : Net → Manager → Bytes → ℕ → Type 0
Over net m short channel = (t : ℕ) × Owner m short t × (net.get_channel t ≡ some channel)

-- And the transport is writable.
abbrev pub WritableOver : Net → Manager → Bytes → ℕ → Type 0
WritableOver net m short channel =
    (t : ℕ) × Owner m short t × (net.get_channel t ≡ some channel) × (net.writable t ≡ true)

p2p_channel-some :
    (lib : Libjingle) (net : Net) (m : Manager) (packet : Bytes) (channel t : ℕ)
    → find (dest_id lib packet) m.short_uid_map ≡ some t
    → net.get_channel t ≡ some channel
    → net.writable t ≡ true
    → p2p_channel lib net m packet ≡ some channel
p2p_channel-some lib net m packet channel t f g w = ground arith

p2p_channel-found :
    (lib : Libjingle) (net : Net) (m : Manager) (packet : Bytes) (channel : ℕ)
    → p2p_channel lib net m packet ≡ some channel
    → (t : ℕ) × (find (dest_id lib packet) m.short_uid_map ≡ some t)
      × (net.get_channel t ≡ some channel)
      × (net.writable t ≡ true)
p2p_channel-found lib net m packet channel e =
    elim (Option-cases (find (dest_id lib packet) m.short_uid_map)) [
      | inl f ↦ absurd (ground arith)
      | inr (t, f) ↦ elim (Bool-cases (net.writable t)) [
        | inl w ↦ (t, f, ground arith, w)
        | inr w ↦ absurd (ground arith)
      ]
    ]

sent_over :
    (calls : List Call) (o : Option ℕ) (addr : Address) (framed packet : Bytes) (channel : ℕ)
    → calls ≡ elim o [ some c ↦ channel_send c packet ∷ [] | none ↦ forward_send addr framed ∷ [] ]
    → (calls ≡ channel_send channel packet ∷ []) ↔ (o ≡ some channel)
sent_over calls none addr framed packet channel e =
    (λ k. absurd (cc (e, k)), λ k. absurd (ground arith))
sent_over calls (some c) addr framed packet channel e =
    (λ k. cc (e, k), λ k. let f : c ≡ channel = cc k in e ∙ rw f refl)

on_read_packet-found :
    (lib : Libjingle) (net : Net) (m : Manager) (q : Queues) (channel : ℕ) (packet : Bytes)
    → on_read_packet lib net m q channel packet
      ≡ record q { recv_queue = q.recv_queue ++ packet ∷ [] }
    → (t : ℕ) × (find (source_id lib packet) m.short_uid_map ≡ some t)
      × (net.get_channel t ≡ some channel)
on_read_packet-found lib net m q channel packet k =
    elim (on_read_packet-cases lib net m q channel packet _ refl) [
      | inl same ↦
          let e = ap (λ (x : Queues). length x.recv_queue) (sym same ∙ k) in
          let l = length-append q.recv_queue (packet ∷ []) in absurd (omega arith)
      | inr (t, f, g, h, e) ↦ (t, f, g)
    ]

-- When two live peers share the first sixteen characters of their ids, DestroyTransport of one leaves
-- the other live, but packets of at least forty bytes no longer use its link: HandlePacket sends the
-- ones to it to the controller, behind the byte 3 and their type, and OnReadPacket leaves the queues
-- as they are for the ones from it, whatever the channel.
pub handle_packet-destroy_transport :
    (lib : Libjingle) (net : Net) (unset : ℕ) (m : Manager) (u v : Bytes) (p peer : Peer)
    (q : Queues) (sending arriving : Bytes) (channel : ℕ)
    → find u m.uid_map ≡ some p
    → find v m.uid_map ≡ some peer
    → u ≢ v
    → take 16 u ≡ take 16 v
    → 40 ≤ length sending
    → 40 ≤ length arriving
    → dest_id lib sending ≡ take 16 v
    → source_id lib arriving ≡ take 16 v
    → let m' = (destroy_transport m u).0 in
      (find v m'.uid_map ≡ some peer)
      × (handle_packet lib net unset m' sending
          ≡ forward_send m'.forward_addr (0x03 ∷ icc_type unset sending ∷ sending) ∷ [])
      × (on_read_packet lib net m' q channel arriving ≡ q)
unfolding short_uid on_read_packet frame
handle_packet-destroy_transport lib net unset m u v p peer q sending arriving channel hu hv ne same
      long full to from =
    let (live, gone) = destroy_transport-hides m u v p peer hu hv ne same in
    let m' = (destroy_transport m u).0 in
    let sent = handle_packet-p2p_channel lib net unset m' sending long in
    let kind = message_type-icc_type unset sending in
    (live, ground (arith, sent, kind, gone, to), ground (arith, gone, from))

-- Over every history of links from the start of a manager in which no two live peers share the first
-- sixteen characters of their ids, packets of at least forty bytes whose destination is not the null id
-- follow the live peers. HandlePacket sends a packet over a channel exactly when its destination is the short id of a live peer
-- whose transport is writable and has that channel. OnReadPacket adds a packet of a channel to the
-- receive queue exactly when the packet's source is the short id of a live peer whose transport has
-- that channel.
pub History-Over :
    (tiebreaker : ℕ) (tap_name : Bytes) (m : Manager) (lib : Libjingle) (net : Net) (unset : ℕ)
    (q : Queues) (packet : Bytes) (channel : ℕ)
    → History (init tiebreaker tap_name) m
    → 40 ≤ length packet
    → dest_id lib packet ≢ take 16 k_null_peer_id
    → ((handle_packet lib net unset m packet ≡ channel_send channel packet ∷ [])
        ↔ WritableOver net m (dest_id lib packet) channel)
      × ((on_read_packet lib net m q channel packet
            ≡ record q { recv_queue = q.recv_queue ++ packet ∷ [] })
          ↔ Over net m (source_id lib packet) channel)
History-Over tiebreaker tap_name m lib net unset q packet channel history long other =
    let directory =
      λ (short : Bytes) (t : ℕ). History-Owner tiebreaker tap_name m short t history in
    let (sent, back) =
      sent_over _ (p2p_channel lib net m packet) _ _ packet channel
        (handle_packet-p2p_channel lib net unset m packet long) in
    (
      (
        λ k.
            let (t, f, g, w) = p2p_channel-found lib net m packet channel (sent k) in
            (t, (directory (dest_id lib packet) t).0 f, g, w),
        λ (t, o, g, w). back (
            p2p_channel-some lib net m packet channel t ((directory (dest_id lib packet) t).1 o) g
              w),
      ),
      (
        λ k.
            let (t, f, g) = on_read_packet-found lib net m q channel packet k in
            (t, (directory (source_id lib packet) t).0 f, g),
        λ (t, o, g).
            on_read_packet-hit lib net m q channel t packet long
              ((directory (source_id lib packet) t).1 o) g,
      ),
    )
