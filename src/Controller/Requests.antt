-- ===== src/Controller/Requests.antt =====
-- ControllerAccess::HandlePacket: the header, and the requests of the controller.
use ipop_tincan.Prelude.{
  ℕ, not, ◌||◌, ◌==◌, Option, none, some, List, [], ◌∷◌, ◌++◌, Bytes, bytes_eq, codes, nat_beq, map,
  ◌>>=◌, pure, get_elem?, ltb, length, drop, if◌then◌else◌,
}
use ipop_tincan.Text.{is_empty}
use ipop_tincan.Wire.{k_tincan_packet, k_icc_control, k_icc_packet}
use ipop_tincan.Manager.{Manager, set_forward_addr, set_trim_connection}
use ipop_tincan.Manager.Types.{Address, Call}
use ipop_tincan.Manager.Queues.{do_packet_send, send_to_tap}
use ipop_tincan.Manager.Links.{Link, create_transport, destroy_transport}
use ipop_tincan.Manager.Candidates.{create_connections}
use ipop_tincan.Manager.Setup.{setup, add_ip_mapping}
use ipop_tincan.Xmpp
use ipop_tincan.JsonObject.{set_text}
use ipop_tincan.Controller.State.{send_state}
use ipop_tincan.Controller.{
  Rpc, other, register_svc, create_link, set_local_ip, set_remote_ip, trim_link, set_cb_endpoint,
  get_state, set_logging, set_translation, set_switchmode, set_trimpolicy, echo_request, echo_reply,
  set_network_ignore_list, Json, Env, Effect, libjingle, xmpp, log_to_debug, above_error, error,
  info, sensitive, Controller, k_default_xmpp_port, lookup_rpc, send_to, message_of,
}

-- `none`: an exception, or a read outside the memory of the datagram.
abbrev pub Result : Type 0
Result = Option (Controller × List Effect)

abbrev pub with_manager : Controller → Manager × List Call → Controller × List Effect
with_manager c (m, calls) = (record c { manager = m }, map libjingle calls)

unfoldable pub do_register_svc : Env → Controller → Json → Result
do_register_svc env c root = do
  user ← root.as_string (codes "username")
  pass ← root.as_string (codes "password")
  host ← root.as_string (codes "host")
  port ←
      if root.is_member (codes "port") then root.as_int (codes "port") else some k_default_xmpp_port
  let (n, done, calls) =
      Xmpp.login env.jids env.now c.network user pass c.manager.tincan_id
        (record { host = host; port = port })
  pure (record c { network = n }, map xmpp calls)

-- The arguments of CreateTransport.
unfoldable pub link_of : Json → Option Link
link_of root = do
  overlay_id ← root.as_int (codes "overlay_id")
  uid ← root.as_string (codes "uid")
  fpr ← root.as_string (codes "fpr")
  stun ← root.as_string (codes "stun")
  turn ← root.as_string (codes "turn")
  turn_user ← root.as_string (codes "turn_user")
  turn_pass ← root.as_string (codes "turn_pass")
  sec ← root.as_bool (codes "sec")
  pure (record {
    uid = uid;
    fpr = fpr;
    overlay_id = overlay_id;
    stun = stun;
    turn = turn;
    turn_user = turn_user;
    turn_pass = turn_pass;
    sec = sec;
  })

-- CreateTransport, and CreateConnections where there are candidates.
unfoldable pub link_up : Env → Manager → Link → Bytes → Option (Manager × List Call)
link_up env m l cas =
    let (m', made, calls) = create_transport env.lib m env.fresh l in
    if is_empty cas
    then some (m', calls)
    else do (m'', known, more) ← create_connections env.lib m' l.uid cas; pure (m'', calls ++ more)

unfoldable pub do_create_link : Env → Controller → Json → Result
do_create_link env c root = do
  l ← link_of root
  cas ← root.as_string (codes "cas")
  r ← link_up env c.manager l cas
  pure (with_manager c r)

unfoldable pub do_set_local_ip : Env → Controller → Json → Result
do_set_local_ip env c root = do
  uid ← root.as_string (codes "uid")
  ip4 ← root.as_string (codes "ip4")
  ip6 ← root.as_string (codes "ip6")
  ip4_mask ← root.as_int (codes "ip4_mask")
  ip6_mask ← root.as_int (codes "ip6_mask")
  subnet_mask ← root.as_int (codes "subnet_mask")
  switchmode ← root.as_int (codes "switchmode")
  pure (
      with_manager c (setup env.lib c.manager uid ip4 ip4_mask ip6 ip6_mask subnet_mask switchmode))

unfoldable pub do_set_remote_ip : Env → Controller → Json → Result
do_set_remote_ip env c root = do
  uid ← root.as_string (codes "uid")
  ip4 ← root.as_string (codes "ip4")
  ip6 ← root.as_string (codes "ip6")
  let (m, added, calls) = add_ip_mapping env.lib c.manager uid ip4 ip6
  pure (with_manager c (m, calls))

unfoldable pub do_trim_link : Controller → Json → Result
do_trim_link c root = do
  uid ← root.as_string (codes "uid")
  let (m, known, calls) = destroy_transport c.manager uid
  pure (with_manager c (m, calls))

-- The address of the controller: the sender's for "::", or the one named.
unfoldable pub do_set_cb_endpoint : Controller → Json → Address → Result
do_set_cb_endpoint c root addr = do
  ip ← root.as_string (codes "ip")
  port ← root.as_int (codes "port")
  let to = if ip == codes "::" then addr else record { host = ip; port = port }
  pure (record c { remote_addr = to; manager = set_forward_addr to c.manager }, [])

abbrev pub logging_effects : ℕ → List Effect
logging_effects logging =
    if nat_beq logging 0
    then log_to_debug above_error ∷ []
    else if nat_beq logging 1
    then log_to_debug error ∷ []
    else if nat_beq logging 2
    then log_to_debug info ∷ []
    else if nat_beq logging 3
    then log_to_debug sensitive ∷ []
    else []

unfoldable pub do_set_network_ignore_list : Controller → Json → Result
do_set_network_ignore_list c root =
    if not (root.is_array (codes "network_ignore_list")) then some (c, []) else do
      names ← root.strings (codes "network_ignore_list")
      pure (record c { ignore_list = names }, [])

-- The default case: a message to a peer, of the method's type.
unfoldable pub do_other : Controller → Json → Bytes → Result
do_other c root method = do
  overlay_id ← root.as_int (codes "overlay_id")
  uid ← root.as_string (codes "uid")
  text ← root.as_string (codes "data")
  pure (c, map xmpp (Xmpp.send_to_peer c.network uid text method))

-- The switch.
unfoldable pub dispatch : Env → Controller → Json → Bytes → Address → Rpc → Result
unfolding do_register_svc do_create_link do_set_local_ip do_set_remote_ip do_trim_link
    do_set_cb_endpoint do_set_network_ignore_list do_other
dispatch env c root method addr register_svc = do_register_svc env c root
dispatch env c root method addr create_link = do_create_link env c root
dispatch env c root method addr set_local_ip = do_set_local_ip env c root
dispatch env c root method addr set_remote_ip = do_set_remote_ip env c root
dispatch env c root method addr trim_link = do_trim_link c root
dispatch env c root method addr set_cb_endpoint = do_set_cb_endpoint c root addr
dispatch env c root method addr get_state = do
  uid ← root.as_string (codes "uid")
  get_stats ← root.as_bool (codes "stats")
  effects ← send_state env c uid get_stats addr
  pure (c, effects)
dispatch env c root method addr set_logging = do
  logging ← root.as_int (codes "logging")
  pure (c, logging_effects logging)
dispatch env c root method addr set_translation = do
  translate ← root.as_int (codes "translate")
  pure (record c { translate = translate }, [])
dispatch env c root method addr set_switchmode = do
  switchmode ← root.as_int (codes "switchmode")
  pure (record c { switchmode = switchmode }, [])
dispatch env c root method addr set_trimpolicy = do
  trim ← root.as_bool (codes "trim_enabled")
  pure (record c { manager = set_trim_connection trim c.manager }, [])
dispatch env c root method addr echo_request = do
  msg ← root.as_string (codes "msg")
  pure (
    c,
    send_to env
        (env.styled
          (set_text (codes "msg") msg (set_text (codes "type") (codes "echo_request") [])))
        addr,
  )
dispatch env c root method addr echo_reply = some (c, [])
dispatch env c root method addr set_network_ignore_list = do_set_network_ignore_list c root
dispatch env c root method addr other = do_other c root method

abbrev pub parse_error : Bytes
parse_error = codes "{\"error\":\"json parsing failed\"}"

-- From the message on: the request is handled also where its text does not parse, and the error
-- goes out last.
unfoldable pub handle_message : Env → Controller → Bytes → Address → Result
unfolding dispatch
handle_message env c message addr =
    let (parsed, root) = env.parse message in
    do
      method ← root.as_string (codes "m")
      let (rpc, calls) = lookup_rpc method c.rpc_calls
      (c', effects) ← dispatch env (record c { rpc_calls = calls }) root method addr rpc
      pure (c', effects ++ (if parsed then [] else send_to env parse_error addr))

-- ProcessIPPacket
abbrev process_ip_packet : Controller → Bytes → Result
process_ip_packet c packet =
    if ltb (length packet) 2
    then none
    else some (record c { queues = (send_to_tap c.queues (drop 2 packet)).0 }, [])

-- HandlePacket. The two bytes of the header are read also where the datagram is shorter; a payload
-- of fewer than zero bytes is copied from far outside of it.
unfoldable pub handle_packet : Env → Controller → Bytes → Bytes → Address → Result
unfolding handle_message
handle_packet env c packet behind addr = do
  kind ← get_elem? (packet ++ behind) 1
  if nat_beq kind k_tincan_packet
      then process_ip_packet c packet
      else if nat_beq kind k_icc_control || nat_beq kind k_icc_packet
      then (if ltb (length packet) 2
          then none
          else some (record c { queues = (do_packet_send c.queues (drop 2 packet)).0 }, []))
      else do message ← message_of packet behind; handle_message env c message addr
