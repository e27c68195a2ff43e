-- ===== src/Manager/Types.antt =====
-- The data of src/tincanconnectionmanager.h. Pointers are numbers (addresses), a `std::string` is
-- its bytes, an int that the code only passes on is its bit pattern.
use ipop_tincan.Prelude.{ℕ, Option, List, Bytes}

-- talk_base::SocketAddress, as the code builds it.
pub record Address : Type 0 where
  pub host : Bytes
  pub port : ℕ

-- SocketAddress::family(), as far as the code tells families apart.
pub data Family : Type 0 where
  inet inet6 unspecified : Family

-- cricket::Candidate, the fields in the order of its constructor.
pub record Candidate : Type 0 where
  pub id : Bytes
  pub component : ℕ
  pub protocol : Bytes
  pub address : Address
  pub priority : ℕ
  pub username : Bytes
  pub password : Bytes
  pub kind : Bytes
  pub network_name : Bytes
  pub generation : ℕ
  pub foundation : Bytes

pub data ConnectionRole : Type 0 where
  actpass active none_role : ConnectionRole

pub data IceRole : Type 0 where
  controlling controlled : IceRole

pub data Action : Type 0 where
  offer answer : Action

-- cricket::TransportDescription
pub record Description : Type 0 where
  pub ufrag : Bytes
  pub pwd : Bytes
  pub role : ConnectionRole
  pub identity_fingerprint : Option Bytes
  pub candidates : List Candidate

pub data Protocol : Type 0 where
  udp tcp : Protocol

-- cricket::RelayServerConfig with its one port
pub record Relay : Type 0 where
  pub address : Address
  pub protocol : Protocol
  pub username : Bytes
  pub password : Bytes

-- cricket::BasicPortAllocator
pub record Allocator : Type 0 where
  pub stun : Address
  pub flags : ℕ
  pub relays : List Relay

pub data Security : Type 0 where
  dtls plain : Security

-- TinCanConnectionManager::PeerState. Fingerprints are held by their RFC 4572 text.
pub record Peer : Type 0 where
  pub overlay_id : ℕ
  pub last_time : ℕ
  pub uid : Bytes
  pub fingerprint : Bytes
  pub connection_security : Security
  pub transport : ℕ
  pub channel : ℕ
  pub port_allocator : Allocator
  pub remote_fingerprint : Option Bytes
  pub local_description : Option Description
  pub remote_description : Option Description
  pub candidates : List Candidate
  pub candidate_list : List Bytes

-- TinCanConnectionManager::PeerIPs
pub record PeerIps : Type 0 where
  pub ip4 : Bytes
  pub ip6 : Bytes

pub data Slot : Type 0 where
  on_read_packet on_request_signaling on_candidates_ready on_candidates_allocation_done : Slot
  on_readable_state on_writable_state : Slot

-- What the code asks of libjingle and of ipop-tap, in order.
pub data Call : Type 0 where
  set_ice_tiebreaker : ℕ → ℕ → Call
  set_ice_role : ℕ → IceRole → Call
  set_local_description : ℕ → Description → Action → Call
  set_remote_description : ℕ → Description → Action → Call
  connect_slot : ℕ → Slot → Call
  connect_channels : ℕ → Call
  on_remote_candidates : ℕ → List Candidate → Call
  delete_transport : ℕ → Call
  override_base_ipv4_addr : Bytes → Call
  peerlist_add_by_uid : Bytes → Call
  peerlist_add : Bytes → Bytes → Bytes → Call
  tap_set_ipv4_addr : Bytes → ℕ → Call
  tap_set_ipv6_addr : Bytes → ℕ → Call
  tap_set_mtu tap_set_base_flags tap_set_up tap_unset_noarp_flags : Call
  peerlist_set_local : Bytes → Bytes → Bytes → Call
  set_subnet_mask : ℕ → ℕ → Call
  channel_send : ℕ → Bytes → Call
  forward_send : Address → Bytes → Call
  send_to_peer : ℕ → Bytes → Bytes → Bytes → Call
  on_signaling_ready : ℕ → Call
  watch_port : ℕ → Call
  prune_connection : ℕ → Call
