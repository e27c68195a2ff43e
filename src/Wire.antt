-- ===== src/Wire.antt =====
-- src/tincan_utils.h: the two-byte header of every datagram between tincan and the controller, and
-- the packet constants of src/peersignalsender.h. The senders in src/tincanconnectionmanager.cc and
-- src/controlleraccess.cc build their messages by `frame`.
use ipop_tincan.Prelude.{ℕ, ◌∷◌, Bytes}

abbrev pub k_ipop_ver : ℕ
k_ipop_ver = 0x03

abbrev pub k_tincan_control : ℕ
k_tincan_control = 0x01

abbrev pub k_tincan_packet : ℕ
k_tincan_packet = 0x02

abbrev pub k_icc_control : ℕ
k_icc_control = 0x03

abbrev pub k_icc_packet : ℕ
k_icc_packet = 0x04

abbrev pub k_tincan_header_size : ℕ
k_tincan_header_size = 2

abbrev pub k_icc_mac_offset : ℕ
k_icc_mac_offset = 5

abbrev pub k_header_size : ℕ
k_header_size = 40

abbrev pub k_id_size : ℕ
k_id_size = 40

-- msg[kTincanVerOffset], msg[kTincanMsgTypeOffset], then memcpy of the payload.
unfoldable pub frame : ℕ → Bytes → Bytes
frame kind payload = k_ipop_ver ∷ kind ∷ payload
