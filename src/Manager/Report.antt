-- ===== src/Manager/Report.antt =====
-- TinCanConnectionManager::OnNetworksChanged, GetChannelStats_w, StateToJson and GetState, as a
-- build other than Windows has them.
pub mod Clock
pub mod States
pub mod Networks
use ipop_tincan.Prelude.{
  ℕ, ◌+◌, ◌-◌, ◌/◌, ◌%◌, ◌^◌, Bool, ◌&&◌, ◌||◌, ◌==◌, Option, none, some, List, [], ◌∷◌, map, Bytes,
  codes, nat_eq, bytes_eq, take, ◌>>=◌, pure, if◌then◌else◌,
}
use ipop_tincan.Map.{find}
use ipop_tincan.Text.{substr, compare_bytes, is_eq}
use ipop_tincan.Table.{Table}
use ipop_tincan.JsonObject.{Row, Object, text, number, flag, rows, set_member, set_text, set_number}
use ipop_tincan.Manager.{Manager, Net}
use ipop_tincan.Manager.Types.{Address, Candidate, Peer, PeerIps, Security, dtls, plain}

-- cricket::ConnectionInfo
pub record ConnectionInfo : Type 0 where
  pub local_candidate : Candidate
  pub remote_candidate : Candidate
  pub best_connection : Bool
  pub writable : Bool
  pub readable : Bool
  pub timeout : Bool
  pub new_connection : Bool
  pub rtt : ℕ
  pub sent_total_bytes : ℕ
  pub sent_bytes_second : ℕ
  pub recv_total_bytes : ℕ
  pub recv_bytes_second : ℕ

-- What libjingle answers while a report is made: talk_base::Time(), SocketAddress::ToString, and
-- GetStats of a channel.
pub record Reporter : Type 0 where
  pub time : ℕ
  pub address_text : Address → Bytes
  pub stats : ℕ → List ConnectionInfo

abbrev pub security_text : Security → Bytes
security_text dtls = codes "dtls"
security_text plain = codes "none"

-- The difference of two uint32 times, in seconds.
unfoldable pub elapsed : ℕ → ℕ → ℕ
elapsed now since = ((now + 2 ^ 32 - since) % 2 ^ 32) / 1000

abbrev uint : ℕ → ℕ
uint n = n % 2 ^ 32

unfoldable pub stat_row : Reporter → ConnectionInfo → Row
stat_row r info =
    (codes "local_addr", text (r.address_text info.local_candidate.address))
    ∷ (codes "rem_addr", text (r.address_text info.remote_candidate.address))
    ∷ (codes "local_type", text info.local_candidate.kind)
    ∷ (codes "rem_type", text info.remote_candidate.kind)
    ∷ (codes "best_conn", flag info.best_connection)
    ∷ (codes "writable", flag info.writable)
    ∷ (codes "readable", flag info.readable)
    ∷ (codes "timeout", flag info.timeout)
    ∷ (codes "new_conn", flag info.new_connection)
    ∷ (codes "rtt", number (uint info.rtt))
    ∷ (codes "sent_total_bytes", number (uint info.sent_total_bytes))
    ∷ (codes "sent_bytes_second", number (uint info.sent_bytes_second))
    ∷ (codes "recv_total_bytes", number (uint info.recv_total_bytes))
    ∷ (codes "recv_bytes_second", number (uint info.recv_bytes_second))
    ∷ []

-- `none` is a call through a null channel.
unfoldable pub get_channel_stats : Reporter → Net → Peer → Option (List ConnectionInfo)
get_channel_stats r net p = elim (net.get_channel p.transport) [
  | none ↦ none
  | some channel ↦ some (r.stats channel)
]

-- The members of a peer whose link is online.
unfoldable pub report_online : Reporter → Net → Peer → Bool → Object → Option Object
unfolding get_channel_stats stat_row
report_online r net p get_stats o =
    let o' =
      set_text (codes "security") (security_text p.connection_security)
        (set_text (codes "status") (codes "online") o) in
    if get_stats
    then (do
      infos ← get_channel_stats r net p
      pure (set_member (codes "stats") (rows (map (stat_row r) infos)) o'))
    else some o'

abbrev is_online : Net → Peer → Bool
is_online net p = net.readable p.transport && net.writable p.transport

-- The members of a peer that has a link.
unfoldable pub report_link : Reporter → Net → Peer → Bool → Object → Option Object
unfolding report_online elapsed
report_link r net p get_stats o =
    let o' =
      set_number (codes "last_time") (elapsed r.time p.last_time)
        (set_text (codes "fpr") p.fingerprint o) in
    if is_online net p then report_online r net p get_stats o' else some o'

unfoldable pub report_ips : Option PeerIps → Object → Object
report_ips none o = o
report_ips (some ips) o = set_text (codes "ip6") ips.ip6 (set_text (codes "ip4") ips.ip4 o)

-- The members that every report has.
unfoldable pub report_base : Reporter → Bytes → ℕ → Object
unfolding elapsed
report_base r uid xmpp_time =
    set_number (codes "xmpp_time") (elapsed r.time xmpp_time)
      (set_text (codes "status") (codes "offline") (set_text (codes "uid") uid []))

unfoldable pub state_to_json : Reporter → Net → Manager → Bytes → ℕ → Bool → Option Object
unfolding report_base report_ips report_link
state_to_json r net m uid xmpp_time get_stats =
    let o = report_ips (find uid m.ip_map) (report_base r uid xmpp_time) in
    elim (find uid m.uid_map) [ none ↦ some o | some p ↦ report_link r net p get_stats o ]

-- The reports in the order of the friends, which is that of their keys and so also the order in
-- which a JSON object gives its members.
unfoldable pub get_state : Reporter → Net → Manager → Table ℕ → Bool → Option (Table Object)
unfolding state_to_json
get_state r net m [] get_stats = some []
get_state r net m ((uid, xmpp_time) ∷ friends) get_stats = do
  peer ← state_to_json r net m uid xmpp_time get_stats
  peers ← get_state r net m friends get_stats
  pure ((uid, peer) ∷ peers)

-- talk_base::Network
pub record Network : Type 0 where
  pub name : Bytes
  pub description : Bytes
  pub ips : List Bytes

unfoldable pub k_tap_desc : Bytes
k_tap_desc = codes "TAP"

unfoldable pub is_tap_network : Bytes → Network → Bool
unfolding k_tap_desc
is_tap_network tap_name n =
    is_eq (compare_bytes n.name tap_name)
    || is_eq (compare_bytes (substr n.description 0 3) k_tap_desc)

-- `ip_of` is the IP address that SocketAddress makes of a text.
unfoldable pub on_networks_changed : (Bytes → Bytes) → Bytes → Manager → List Network → List Network
unfolding is_tap_network
on_networks_changed ip_of tap_name m [] = []
on_networks_changed ip_of tap_name m (n ∷ networks) =
    (if is_tap_network tap_name n then record n { ips = ip_of m.tincan_ip6 ∷ [] } else n)
    ∷ on_networks_changed ip_of tap_name m networks
