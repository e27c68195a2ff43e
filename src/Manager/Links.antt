-- ===== src/Manager/Links.antt =====
-- TinCanConnectionManager::SetRelay, SetupTransport, CreateTransport and DestroyTransport, with the
-- two changes of short_uid_map_ that run on the packet handling thread (`Invoke` waits for them).
pub mod Roles
pub mod Safety
pub mod Removal
pub mod Replacing
pub mod Creation
pub mod Reachability
pub mod Directory
use ipop_tincan.Prelude.{
  ℕ, Bool, true, false, not, ◌&&◌, ◌||◌, none, some, List, [], ◌∷◌, ◌++◌, Bytes, nat_eq, bytes_eq,
  ◌==◌, if◌then◌else◌,
}
use ipop_tincan.Map.{find, insert, erase, has, is_some}
use ipop_tincan.Text.{is_empty, compare_bytes, is_lt, is_gt, is_eq}
use ipop_tincan.Manager.{Manager, Libjingle, k_fpr_null, k_ice_ufrag, k_ice_pwd, k_flags, short_uid}
use ipop_tincan.Manager.Types.{
  Peer, Call, Relay, Allocator, Security, dtls, plain, udp, Description, ConnectionRole, actpass,
  active, none_role, controlling, controlled, offer, answer, set_ice_tiebreaker, set_ice_role,
  set_local_description, set_remote_description, connect_slot, connect_channels, delete_transport,
  on_read_packet, on_request_signaling, on_candidates_ready, on_candidates_allocation_done,
  on_readable_state, on_writable_state,
}

-- The UDP relay; the TCP one is built and not added.
unfoldable pub set_relay : Libjingle → Peer → Bytes → Bytes → Bytes → Peer × Bool
set_relay lib p turn_server username password =
    if is_empty turn_server || is_empty username
    then (p, false)
    else (record p { port_allocator = added }, true)
  where
    relay : Relay
    relay = record {
      address = lib.from_string turn_server;
      protocol = udp;
      username = username;
      password = password;
    }

    added : Allocator
    added = record p.port_allocator { relays = p.port_allocator.relays ++ relay ∷ [] }

-- The role of the DTLS connection, from the two ids.
unfoldable pub conn_role : Bytes → Bytes → ConnectionRole
conn_role peer own = if is_gt (compare_bytes peer own) then active else actpass

unfoldable pub is_controlling : Bytes → Bytes → Bool
is_controlling peer own = is_lt (compare_bytes peer own)

unfoldable pub local_description : Manager → Peer → Description
local_description m p = record {
  ufrag = k_ice_ufrag;
  pwd = k_ice_pwd;
  role = conn_role p.uid m.tincan_id;
  identity_fingerprint = m.local_fingerprint;
  candidates = p.candidates;
}

unfoldable pub remote_description : Libjingle → Peer → Description
remote_description lib p = record {
  ufrag = k_ice_ufrag;
  pwd = k_ice_pwd;
  role = none_role;
  identity_fingerprint = lib.fingerprint_from_rfc4572 p.fingerprint;
  candidates = p.candidates;
}

unfoldable pub setup_transport : Libjingle → Manager → Peer → Peer × List Call
setup_transport lib m p = (
  record p {
    remote_fingerprint = lib.fingerprint_from_rfc4572 p.fingerprint;
    local_description = some (local_description m p);
    remote_description = some (remote_description lib p);
  },
  set_ice_tiebreaker p.transport m.tiebreaker
      ∷ (if is_controlling p.uid m.tincan_id
          then set_ice_role p.transport controlling
            ∷ set_local_description p.transport (local_description m p) offer
            ∷ set_remote_description p.transport (remote_description lib p) answer
            ∷ []
          else set_ice_role p.transport controlled
            ∷ set_remote_description p.transport (remote_description lib p) offer
            ∷ set_local_description p.transport (local_description m p) answer
            ∷ []),
)

-- sec_enabled, an own fingerprint, and a peer's fingerprint that is not the null one.
unfoldable pub security : Manager → Bytes → Bool → Security
security m fpr sec =
    if sec && is_some m.local_fingerprint && not (is_eq (compare_bytes fpr k_fpr_null))
    then dtls
    else plain

-- `InsertTransportMap_w` logs a key that is there, and overwrites it.
unfoldable pub insert_transport_map : Bytes → ℕ → Manager → Manager
insert_transport_map sub_uid transport m = record m {
  short_uid_map = insert sub_uid transport m.short_uid_map;
}

unfoldable pub delete_transport_map : Bytes → Manager → Manager
delete_transport_map sub_uid m =
    if has sub_uid m.short_uid_map
    then record m { short_uid_map = erase sub_uid m.short_uid_map }
    else m

-- The arguments of CreateTransport.
pub record Link : Type 0 where
  pub uid : Bytes
  pub fpr : Bytes
  pub overlay_id : ℕ
  pub stun : Bytes
  pub turn : Bytes
  pub turn_user : Bytes
  pub turn_pass : Bytes
  pub sec : Bool

-- What the environment supplies: the clock, and the addresses of the new objects.
pub record Fresh : Type 0 where
  pub time : ℕ
  pub transport : ℕ
  pub channel : ℕ

unfoldable pub new_peer : Libjingle → Manager → Fresh → Link → Peer
unfolding set_relay
new_peer lib m new l = (set_relay lib bare l.turn l.turn_user l.turn_pass).0
  where
    bare : Peer
    bare = record {
      overlay_id = l.overlay_id;
      last_time = new.time;
      uid = l.uid;
      fingerprint = l.fpr;
      connection_security = security m l.fpr l.sec;
      transport = new.transport;
      channel = new.channel;
      port_allocator = record { stun = lib.from_string l.stun; flags = k_flags; relays = [] };
      remote_fingerprint = none;
      local_description = none;
      remote_description = none;
      candidates = [];
      candidate_list = [];
    }

abbrev connect_calls : ℕ → List Call
connect_calls t =
    connect_slot t on_read_packet
    ∷ connect_slot t on_request_signaling
    ∷ connect_slot t on_candidates_ready
    ∷ connect_slot t on_candidates_allocation_done
    ∷ connect_slot t on_readable_state
    ∷ connect_slot t on_writable_state
    ∷ []

-- uid_map_, transport_map_ and short_uid_map_ in the order of the code.
unfoldable pub add_link : Peer → Manager → Manager
unfolding insert_transport_map
add_link p m = insert_transport_map (short_uid p.uid) p.transport (record m {
  uid_map = insert p.uid p m.uid_map;
  transport_map = insert p.transport p.uid m.transport_map;
})

unfoldable pub create_transport : Libjingle → Manager → Fresh → Link → Manager × Bool × List Call
unfolding new_peer setup_transport
create_transport lib m new l =
    if has l.uid m.uid_map || m.tincan_id == l.uid
    then (m, false, [])
    else let (p, calls) = setup_transport lib m (new_peer lib m new l) in
      (add_link p m, true, connect_calls p.transport ++ calls ++ connect_channels p.transport ∷ [])

unfoldable pub remove_link : Bytes → Peer → Manager → Manager
unfolding delete_transport_map
remove_link uid p m =
    let m' = delete_transport_map (short_uid uid) m in
    record m' { uid_map = erase uid m'.uid_map; transport_map = erase p.transport m'.transport_map }

-- The last reference goes with the call, and ~PeerState destroys the transport.
unfoldable pub destroy_transport : Manager → Bytes → Manager × Bool × List Call
destroy_transport m uid = elim (find uid m.uid_map) [
  | none ↦ (m, false, [])
  | some p ↦ (remove_link uid p m, true, delete_transport p.transport ∷ [])
]
