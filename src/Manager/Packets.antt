-- ===== src/Manager/Packets.antt =====
-- TinCanConnectionManager::is_icc, HandlePacket, OnReadPacket, HandleQueueSignal_w and OnMessage:
-- what the packet handling thread does with one packet. A packet is the bytes of its buffer.
pub mod Routing
pub mod Admission
pub mod Following
pub mod Delivery
use ipop_tincan.Prelude.{
  ℕ, suc, zero, ◌+◌, ◌-◌, ◌≡◌, Bool, true, false, ◌&&◌, ◌||◌, not, Option, none, some, List, [],
  ◌∷◌, arith, Bytes, nat_eq, bytes_eq, nat_beq, ltb, length, take, drop, get_or, if◌then◌else◌,
}
use ipop_tincan.Map.{find, has}
use ipop_tincan.Text.{substr, compare_bytes, is_eq}
use ipop_tincan.Wire.{
  frame, k_tincan_packet, k_icc_control, k_icc_packet, k_icc_mac_offset, k_header_size,
}
use ipop_tincan.WQueue.{add, remove}
use ipop_tincan.Manager.{Manager, Libjingle, Net, k_id_bytes_len, k_short_len, k_null_peer_id}
use ipop_tincan.Manager.Queues.{Queues}
use ipop_tincan.Manager.Types.{Call, channel_send, forward_send}

-- data[i]; every use is guarded by the length.
abbrev pub at : Bytes → ℕ → ℕ
at packet i = get_or packet i 0

unfoldable pub is_icc : Bytes → Bool
is_icc packet =
    nat_beq (at packet 40) 0x00
    && nat_beq (at packet 41) 0x69
    && nat_beq (at packet 42) 0x70
    && nat_beq (at packet 43) 0x6f
    && nat_beq (at packet 44) 0x70

-- hex_encode(data, kShortLen)
unfoldable pub source_id : Libjingle → Bytes → Bytes
source_id lib packet = lib.hex_encode (take k_short_len packet)

-- hex_encode(data + kIdBytesLen, kShortLen)
unfoldable pub dest_id : Libjingle → Bytes → Bytes
dest_id lib packet = lib.hex_encode (take k_short_len (drop k_id_bytes_len packet))

-- dest.compare(0, 3, kNullPeerId) == 0
unfoldable pub is_null_peer : Bytes → Bool
is_null_peer dest = is_eq (compare_bytes (substr dest 0 3) k_null_peer_id)

-- The type field of a packet without a link. `unset` is what `new char[]` left in the byte, which
-- neither branch of the inner test may write.
unfoldable pub message_type : ℕ → Bytes → ℕ
unfolding is_icc
message_type unset packet =
    if ltb (k_header_size + 6) (length packet) && is_icc packet
    then if nat_beq (at packet (k_header_size + k_icc_mac_offset)) k_icc_packet
      then k_icc_packet
      else if nat_beq (at packet (k_header_size + k_icc_mac_offset)) k_icc_control
      then k_icc_control
      else unset
    else k_tincan_packet

unfoldable pub forward : Manager → ℕ → Bytes → List Call
forward m kind packet = forward_send m.forward_addr (frame kind packet) ∷ []

-- The two branches of a destination that is in short_uid_map_.
unfoldable pub send_linked : Net → Manager → ℕ → Bytes → List Call
send_linked net m t packet =
    if net.writable t
    then elim (net.get_channel t) [
      | some channel ↦ channel_send channel packet ∷ []
      | none ↦ forward m k_tincan_packet packet
    ]
    else forward m k_tincan_packet packet

unfoldable pub handle_packet : Libjingle → Net → ℕ → Manager → Bytes → List Call
unfolding dest_id
handle_packet lib net unset m packet =
    if ltb (length packet) k_header_size
    then []
    else if is_null_peer (dest_id lib packet) || not (has (dest_id lib packet) m.short_uid_map)
    then forward m (message_type unset packet) packet
    else elim (find (dest_id lib packet) m.short_uid_map) [
      | none ↦ []
      | some t ↦ send_linked net m t packet
    ]

-- GetChannel(component) == channel
abbrev pub is_channel : Option ℕ → ℕ → Bool
is_channel none channel = false
is_channel (some c) channel = nat_beq c channel

unfoldable pub on_read_packet : Libjingle → Net → Manager → Queues → ℕ → Bytes → Queues
unfolding source_id add
on_read_packet lib net m q channel packet =
    if ltb (length packet) k_header_size
    then q
    else elim (find (source_id lib packet) m.short_uid_map) [
      | none ↦ q
      | some t ↦
          if is_channel (net.get_channel t) channel
          then record q { recv_queue = add packet q.recv_queue }
          else q
    ]

-- `none` means that the packet handling thread waits inside `remove`.
unfoldable pub handle_queue_signal :
    Libjingle → Net → ℕ → Manager → Queues → Option (Queues × List Call)
unfolding remove
handle_queue_signal lib net unset m q = elim (remove q.send_queue) [
  | none ↦ none
  | some (packet, rest) ↦
      some (record q { send_queue = rest }, handle_packet lib net unset m packet)
]

-- The thread takes one MSG_QUEUESIGNAL out of its message queue and calls OnMessage.
unfoldable pub on_message : Libjingle → Net → ℕ → Manager → Queues → Option (Queues × List Call)
unfolding handle_queue_signal
on_message lib net unset m q =
    handle_queue_signal lib net unset m (record q { posted = q.posted - 1 })
