-- ===== src/Manager/Packets/Routing.antt =====
-- Where HandlePacket sends a packet.
use ipop_tincan.Prelude.{
  ℕ, ◌≤◌, ◌<◌, ◌≡◌, ◌≢◌, ◌⊎◌, true, false, Option, none, some, [], ◌∷◌, arith, Bytes, nat_eq,
  bytes_eq, length, take, length-take, if◌then◌else◌, ◌&&◌, ltb, nat_beq, Option-cases, inl, inr,
  ◌∙◌, refl, ap,
}
use ipop_tincan.Map.{find, has}
use ipop_tincan.Text.Order.{compare_bytes_lengths}
use ipop_tincan.Wire.{frame, k_tincan_packet, k_icc_control, k_icc_packet}
use ipop_tincan.Manager.{Manager, Libjingle, Net, k_null_peer_id}
use ipop_tincan.Manager.Types.{Address, channel_send, forward_send}
use ipop_tincan.Manager.Packets.{
  at, is_icc, dest_id, is_null_peer, message_type, forward, send_linked, handle_packet,
}

-- Three characters are compared with all twenty of kNullPeerId, so the test for the null peer
-- fails for every destination.
pub is_null_peer-false : (dest : Bytes) → is_null_peer dest ≡ false
unfolding is_null_peer k_null_peer_id
is_null_peer-false dest =
    compare_bytes_lengths (take 3 dest) k_null_peer_id (omega (arith, length-take 3 dest))

-- The channel to the packet's destination: a transport under its short id that is writable and has
-- a channel.
abbrev pub p2p_channel : Libjingle → Net → Manager → Bytes → Option ℕ
p2p_channel lib net m packet = elim (find (dest_id lib packet) m.short_uid_map) [
  | none ↦ none
  | some t ↦ if net.writable t then net.get_channel t else none
]

-- A packet without a link is tagged by its MAC address, one with a link that is not up is plain.
abbrev pub tag : Libjingle → ℕ → Manager → Bytes → ℕ
tag lib unset m packet =
    if has (dest_id lib packet) m.short_uid_map then k_tincan_packet else message_type unset packet

-- A packet of at least 40 bytes is sent exactly once and whole: over the channel to its destination
-- if there is one, and otherwise to the controller behind the header and its tag.
pub handle_packet-p2p_channel :
    (lib : Libjingle) (net : Net) (unset : ℕ) (m : Manager) (packet : Bytes)
    → 40 ≤ length packet
    → handle_packet lib net unset m packet ≡ elim (p2p_channel lib net m packet) [
      | some channel ↦ channel_send channel packet ∷ []
      | none ↦ forward_send m.forward_addr (frame (tag lib unset m packet) packet) ∷ []
    ]
unfolding handle_packet send_linked forward
handle_packet-p2p_channel lib net unset m packet h =
    ground (arith, is_null_peer-false (dest_id lib packet))

-- The bytes of an ICC packet, with its type in byte 45; what neither type writes stays unset.
abbrev pub icc_type : ℕ → Bytes → ℕ
icc_type unset packet =
    if ltb 46 (length packet)
      && nat_beq (at packet 40) 0x00
      && nat_beq (at packet 41) 0x69
      && nat_beq (at packet 42) 0x70
      && nat_beq (at packet 43) 0x6f
      && nat_beq (at packet 44) 0x70
    then if nat_beq (at packet 45) 4 then 4 else if nat_beq (at packet 45) 3 then 3 else unset
    else 2

pub message_type-icc_type :
    (unset : ℕ) (packet : Bytes) → message_type unset packet ≡ icc_type unset packet
unfolding message_type is_icc
message_type-icc_type unset packet = ground arith

-- The type byte of what goes to the controller.
abbrev pub route_type : Libjingle → ℕ → Manager → Bytes → ℕ
route_type lib unset m packet = elim (find (dest_id lib packet) m.short_uid_map) [
  | some t ↦ 2
  | none ↦ icc_type unset packet
]

tag-route_type :
    (lib : Libjingle) (unset : ℕ) (m : Manager) (packet : Bytes)
    → tag lib unset m packet ≡ route_type lib unset m packet
tag-route_type lib unset m packet =
    elim (Option-cases (find (dest_id lib packet) m.short_uid_map)) [
      | inl e ↦ ground (arith, e, message_type-icc_type unset packet)
      | inr (t, e) ↦ ground (arith, e)
    ]

forward-type :
    (o : Option ℕ) (addr : Address) (packet : Bytes) (a b : ℕ)
    → a ≡ b
    → (elim o [
      | some channel ↦ channel_send channel packet ∷ []
      | none ↦ forward_send addr (frame a packet) ∷ []
    ])
      ≡ elim o [
        | some channel ↦ channel_send channel packet ∷ []
        | none ↦ forward_send addr (0x03 ∷ b ∷ packet) ∷ []
      ]
unfolding frame
forward-type none addr packet a b e = ap (λ x. forward_send addr (0x03 ∷ x ∷ packet) ∷ []) e
forward-type (some channel) addr packet a b e = refl

-- A packet of at least 40 bytes to a destination that is not the null id is sent exactly once and
-- whole. If the destination is the short id of a transport that is writable and has a channel, it
-- goes over that channel. Otherwise it goes to the controller, behind the byte 3 and a type. The
-- type is 2 if the destination has a transport. Without one it is byte 45, if that is 3 or 4 and the
-- packet has more than 46 bytes with 00 69 70 6f 70 at 40, what the memory of the message held if
-- byte 45 of such a packet is neither, and 2 for every other packet.
pub handle_packet-route :
    (lib : Libjingle) (net : Net) (unset : ℕ) (m : Manager) (packet : Bytes)
    → 40 ≤ length packet
    → dest_id lib packet ≢ take 16 k_null_peer_id
    → handle_packet lib net unset m packet ≡ elim (p2p_channel lib net m packet) [
      | some channel ↦ channel_send channel packet ∷ []
      | none ↦ forward_send m.forward_addr (0x03 ∷ route_type lib unset m packet ∷ packet) ∷ []
    ]
handle_packet-route lib net unset m packet h other =
    handle_packet-p2p_channel lib net unset m packet h
    ∙ forward-type (p2p_channel lib net m packet) m.forward_addr packet _ _
        (tag-route_type lib unset m packet)

-- A shorter packet is dropped.
pub handle_packet-short :
    (lib : Libjingle) (net : Net) (unset : ℕ) (m : Manager) (packet : Bytes)
    → length packet < 40
    → handle_packet lib net unset m packet ≡ []
unfolding handle_packet
handle_packet-short lib net unset m packet h = ground arith

-- A packet of more than 46 bytes with the ICC prefix and neither type byte carries to the
-- controller, as its type, whatever the memory of the message held.
pub message_type-unset :
    (unset : ℕ) (packet : Bytes)
    → 46 < length packet
    → is_icc packet ≡ true
    → at packet 45 ≢ k_icc_packet
    → at packet 45 ≢ k_icc_control
    → message_type unset packet ≡ unset
unfolding message_type
message_type-unset unset packet long icc a b = ground arith

-- Every other packet has a type that the memory does not influence.
pub message_type-determined :
    (unset other : ℕ) (packet : Bytes)
    → (is_icc packet ≡ true → (at packet 45 ≡ k_icc_packet) ⊎ (at packet 45 ≡ k_icc_control))
    → message_type unset packet ≡ message_type other packet
unfolding message_type
message_type-determined unset other packet h = ground arith
