-- ===== src/Manager/Signals.antt =====
-- TinCanConnectionManager::OnRequestSignaling, OnRWChangeState, HandleConnectionSignal and HandlePeer.
-- `none` is a call through a null PeerStatePtr, which `uid_map_[uid]` makes of an unknown uid.
use ipop_tincan.Prelude.{
  ℕ, Bool, ◌&&◌, Option, none, some, List, [], ◌∷◌, map, Bytes, codes, nat_eq, bytes_eq,
  if◌then◌else◌,
}
use ipop_tincan.Map.{find, insert}
use ipop_tincan.Manager.{Manager, Net, k_local_controller_id, k_con_stat}
use ipop_tincan.Manager.Types.{Call, send_to_peer, watch_port, prune_connection, on_signaling_ready}

-- transport_map_[transport]: a key that is not there is added with an empty string.
unfoldable pub transport_uid : Manager → ℕ → Bytes × Manager
transport_uid m t = elim (find t m.transport_map) [
  | some uid ↦ (uid, m)
  | none ↦ ([], record m { transport_map = insert t [] m.transport_map })
]

pub data Status : Type 0 where
  unknown online offline : Status

abbrev pub status_text : Status → Bytes
status_text unknown = codes "unknown"
status_text online = codes "online"
status_text offline = codes "offline"

unfoldable pub status : Net → ℕ → Status
status net t =
    if net.readable t && net.writable t
    then online
    else if net.was_writable t
    then offline
    else unknown

unfoldable pub on_rw_change_state : Net → Manager → ℕ → Option (Manager × List Call)
unfolding transport_uid status
on_rw_change_state net m t =
    let (uid, m') = transport_uid m t in
    let notice = send_to_peer k_local_controller_id uid (status_text (status net t)) k_con_stat in
    elim (status net t) [
      | online ↦ elim (find uid m'.uid_map) [
        | none ↦ none
        | some p ↦ some (m', notice ∷ map watch_port (net.ports p.channel))
      ]
      | _ ↦ some (m', notice ∷ [])
    ]

unfoldable pub on_request_signaling : ℕ → List Call
on_request_signaling t = on_signaling_ready t ∷ []

-- A connection over a relay port, made on a link that is online, is pruned if trimming is on.
unfoldable pub handle_connection_signal : Manager → Bool → ℕ → List Call
handle_connection_signal m is_relay connection =
    if m.trim_enabled && is_relay then prune_connection connection ∷ [] else []

unfoldable pub handle_peer : Bytes → Bytes → Bytes → List Call
handle_peer uid text type = send_to_peer k_local_controller_id uid text type ∷ []
