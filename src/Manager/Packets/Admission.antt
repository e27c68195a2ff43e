-- ===== src/Manager/Packets/Admission.antt =====
-- Which packets of the network OnReadPacket hands to ipop-tap.
use ipop_tincan.Prelude.{
  ℕ, ◌≤◌, ◌≡◌, refl, ◌⊎◌, inl, inr, Option, none, some, [], ◌∷◌, ◌++◌, arith, Bytes, nat_eq,
  bytes_eq, ltb, length, Bool-cases,
}
use ipop_tincan.Map.{find}
use ipop_tincan.Manager.{Manager, Libjingle, Net, short_uid}
use ipop_tincan.Manager.Types.{Peer}
use ipop_tincan.Manager.Queues.{Queues}
use ipop_tincan.Manager.Links.Safety.{IsConsistent}
use ipop_tincan.Manager.Packets.{source_id, is_channel, on_read_packet}

-- The packet came over the channel of a live peer, and names that peer's short id as its source.
abbrev pub Authentic : Libjingle → Net → Manager → ℕ → Bytes → Type 0
Authentic lib net m channel packet =
    (uid : Bytes) × (p : Peer) × (find uid m.uid_map ≡ some p)
    × (short_uid uid ≡ source_id lib packet)
    × (net.get_channel p.transport ≡ some channel)
    × (40 ≤ length packet)

pub on_read_packet-hit :
    (lib : Libjingle) (net : Net) (m : Manager) (q : Queues) (channel t : ℕ) (packet : Bytes)
    → 40 ≤ length packet
    → find (source_id lib packet) m.short_uid_map ≡ some t
    → net.get_channel t ≡ some channel
    → on_read_packet lib net m q channel packet
      ≡ record q { recv_queue = q.recv_queue ++ packet ∷ [] }
unfolding on_read_packet
on_read_packet-hit lib net m q channel t packet h f g = ground arith

-- In either outcome at once: unchanged, or the packet at the end and what the code tested.
pub on_read_packet-cases :
    (lib : Libjingle) (net : Net) (m : Manager) (q : Queues) (channel : ℕ) (packet : Bytes)
    (o : Option ℕ)
    → find (source_id lib packet) m.short_uid_map ≡ o
    → (on_read_packet lib net m q channel packet ≡ q)
      ⊎ ((t : ℕ) × (o ≡ some t)
          × (net.get_channel t ≡ some channel)
          × (40 ≤ length packet)
          × (on_read_packet lib net m q channel packet
              ≡ record q { recv_queue = q.recv_queue ++ packet ∷ [] }))
unfolding on_read_packet
on_read_packet-cases lib net m q channel packet none e = inl (ground arith)
on_read_packet-cases lib net m q channel packet (some t) e =
    elim (Bool-cases (is_channel (net.get_channel t) channel)) [
      | inl hit ↦ elim (Bool-cases (ltb (length packet) 40)) [
        | inl short ↦ inl (ground arith)
        | inr long ↦ inr (t, refl, ground arith, ground arith, ground arith)
      ]
      | inr miss ↦ inl (ground arith)
    ]

-- With consistent tables, OnReadPacket leaves the queues alone, or it adds the packet at the end of
-- the receive queue, and then the packet came over the channel of a live peer whose short id is the
-- packet's source.
pub on_read_packet-Authentic :
    (lib : Libjingle) (net : Net) (m : Manager) (q : Queues) (channel : ℕ) (packet : Bytes)
    → IsConsistent m
    → (on_read_packet lib net m q channel packet ≡ q)
      ⊎ ((on_read_packet lib net m q channel packet
            ≡ record q { recv_queue = q.recv_queue ++ packet ∷ [] })
          × Authentic lib net m channel packet)
on_read_packet-Authentic lib net m q channel packet c =
    elim (on_read_packet-cases lib net m q channel packet _ refl) [
      | inl same ↦ inl same
      | inr (t, f, g, h, e) ↦
          let (uid, p, live, short, k) = c.short_owned (source_id lib packet) t f in
          inr (e, (uid, p, live, short, cc, h))
    ]

-- Every packet of at least 40 bytes from a peer that has its entry in the short table, over that
-- peer's channel and under its short id, is handed on.
pub on_read_packet_complete :
    (lib : Libjingle) (net : Net) (m : Manager) (q : Queues) (uid : Bytes) (p : Peer) (channel : ℕ)
    (packet : Bytes)
    → find (short_uid uid) m.short_uid_map ≡ some p.transport
    → net.get_channel p.transport ≡ some channel
    → source_id lib packet ≡ short_uid uid
    → 40 ≤ length packet
    → on_read_packet lib net m q channel packet
      ≡ record q { recv_queue = q.recv_queue ++ packet ∷ [] }
on_read_packet_complete lib net m q uid p channel packet f g s h =
    on_read_packet-hit lib net m q channel p.transport packet h (cc) g
