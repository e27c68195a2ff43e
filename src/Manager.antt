-- ===== src/Manager.antt =====
-- src/tincanconnectionmanager.h and .cc: the state of TinCanConnectionManager, its constants, and what it takes from libjingle and ipop-tap.
pub mod Types
pub mod Setup
pub mod Links
pub mod Packets
pub mod Queues
pub mod Signals
pub mod Candidates
pub mod Report
pub mod Threads
use Types.{Address, Peer, PeerIps}
use ipop_tincan.Prelude.{
  ℕ, ◌*◌, ◌≡◌, Bool, false, Option, none, some, List, [], Bytes, nat_eq, bytes_eq, codes, take,
}
use ipop_tincan.Map.{Map, empty}

unfoldable pub k_ipv4 : Bytes
k_ipv4 = codes "172.31.0.100"

unfoldable pub k_ipv6 : Bytes
k_ipv6 = codes "fd50:0dbc:41f2:4a3c:0000:0000:0000:0000"

unfoldable pub k_fpr_null : Bytes
k_fpr_null = codes "00:00:00:00:00:00:00:00:00:00:00:00:00:00:00:00:00:00:00:00"

abbrev pub k_ice_ufrag : Bytes
k_ice_ufrag = codes "ufrag"

abbrev pub k_ice_pwd : Bytes
k_ice_pwd = codes "pwd"

abbrev pub k_id_bytes_len : ℕ
k_id_bytes_len = 20

abbrev pub k_flags : ℕ
k_flags = 0

abbrev pub k_local_controller_id : ℕ
k_local_controller_id = 0

abbrev pub k_short_len : ℕ
k_short_len = 8

unfoldable pub k_null_peer_id : Bytes
k_null_peer_id = codes "00000000000000000000"

abbrev pub k_con_stat : Bytes
k_con_stat = codes "con_stat"

abbrev pub k_con_resp : Bytes
k_con_resp = codes "con_resp"

-- uid.substr(0, kShortLen * 2), the key of short_uid_map_.
unfoldable pub short_uid : Bytes → Bytes
short_uid uid = take (k_short_len * 2) uid

pub record Manager : Type 0 where
  pub uid_map : Map Bytes Peer
  pub short_uid_map : Map Bytes ℕ
  pub transport_map : Map ℕ Bytes
  pub ip_map : Map Bytes PeerIps
  pub tincan_id : Bytes
  pub local_fingerprint : Option Bytes
  pub fingerprint : Bytes
  pub tiebreaker : ℕ
  pub tincan_ip4 : Bytes
  pub tincan_ip6 : Bytes
  pub tap_name : Bytes
  pub forward_addr : Address
  pub trim_enabled : Bool

-- The constructor, with the random tie breaker and the configured name of the tap device.
unfoldable pub init : ℕ → Bytes → Manager
unfolding k_ipv4 k_ipv6
init tiebreaker tap_name = record {
  uid_map = empty;
  short_uid_map = empty;
  transport_map = empty;
  ip_map = empty;
  tincan_id = [];
  local_fingerprint = none;
  fingerprint = k_fpr_null;
  tiebreaker = tiebreaker;
  tincan_ip4 = k_ipv4;
  tincan_ip6 = k_ipv6;
  tap_name = tap_name;
  forward_addr = record { host = []; port = 0 };
  trim_enabled = false;
}

abbrev pub set_ip : Bytes → Manager → Manager
set_ip ip m = record m { tincan_ip4 = ip }

abbrev pub set_forward_addr : Address → Manager → Manager
set_forward_addr addr m = record m { forward_addr = addr }

abbrev pub set_trim_connection : Bool → Manager → Manager
set_trim_connection trim m = record m { trim_enabled = trim }

-- The functions of libjingle (talk_base, cricket) whose results the code uses.
pub record Libjingle : Type 0 where
  pub hex_encode : Bytes → Bytes
  pub hex_decode : ℕ → Bytes → Bytes
  pub create_fingerprint : Bytes → Option Bytes
  pub fingerprint_from_rfc4572 : Bytes → Option Bytes
  pub from_string : Bytes → Address
  pub ip_to_string : Address → Bytes
  pub split : ℕ → Bytes → List Bytes

-- What the transports and channels of libjingle answer at the moment of a call. Channels and
-- transports are told apart by their addresses; GetChannel(component) may be null. `ports`
-- are those of a channel.
pub record Net : Type 0 where
  pub readable : ℕ → Bool
  pub writable : ℕ → Bool
  pub was_writable : ℕ → Bool
  pub get_channel : ℕ → Option ℕ
  pub ports : ℕ → List ℕ
