-- ===== src/Controller/Safety.antt =====
-- ControllerAccess::HandlePacket, the tables of the manager, and rpc_calls.
use ipop_tincan.Prelude.{
  ◌≡◌, none, some, List, Bytes, codes, nat_eq, bytes_eq, Holds, Holds-bind, Holds-some,
  if◌then◌else◌, inl, inr, Option-cases, arith, either, get_elem?, nat_beq, ltb, length, drop, ◌||◌,
  ◌>>=◌, pure, [], ◌++◌,
}
use ipop_tincan.Map.{Map, find, insert, find-insert}
use ipop_tincan.Manager.Types.{Address}
use ipop_tincan.Manager.Links.Safety.{IsConsistent}
use ipop_tincan.Controller
use ipop_tincan.Controller.{
  Rpc, register_svc, create_link, set_local_ip, set_remote_ip, trim_link, set_cb_endpoint,
  get_state, set_logging, set_translation, set_switchmode, set_trimpolicy, echo_request, echo_reply,
  set_network_ignore_list, other, Json, Env, Effect, Controller, lookup_rpc, init_map, message_of,
  k_default_xmpp_port,
}
use ipop_tincan.Controller.Requests
use ipop_tincan.Controller.Requests.{
  link_up, link_of, dispatch, handle_message, handle_packet, Result,
}
use ipop_tincan.Wire.{k_tincan_packet, k_icc_control, k_icc_packet}
use ipop_tincan.Manager.Queues.{Queues, do_packet_send, send_to_tap}
use ipop_tincan.Controller.Dispatch.{Good, Onward, Onward-same, dispatch-Good}
use ipop_tincan.Manager.Packets.Delivery.{IsServed, do_packet_send-IsServed}

-- What a table of methods makes of each method.
abbrev pub Agrees : Map Bytes Rpc → Type 0
Agrees calls = (method : Bytes) → (lookup_rpc method calls).0 ≡ (lookup_rpc method init_map).0

lookup_rpc-Agrees :
    (method : Bytes) (calls : Map Bytes Rpc) → Agrees calls → Agrees (lookup_rpc method calls).1
unfolding lookup_rpc
lookup_rpc-Agrees method calls h = elim (Option-cases (find method calls)) [
  | inr (rpc, there) ↦ let e : (lookup_rpc method calls).1 ≡ calls = ground arith in rw e h
  | inl gone ↦ λ j.
      let e : (lookup_rpc method calls).1 ≡ insert method other calls = ground arith in
      let k = h j in
      let f = find-insert method j other calls in
      let g = bytes_eq.same_iff method j in ground (arith, e, k, f, g)
]

send_to_tap-IsServed :
    (q : Queues) (packet : Bytes) → IsServed q → IsServed (send_to_tap q packet).0
unfolding send_to_tap
send_to_tap-IsServed q packet h = h

-- What a datagram keeps: the tables, the meaning of the methods, the session's timer, the
-- times and JIDs of peers, and a packet for each posted message.
abbrev Safe : Controller → Controller × List Effect → Type 0
Safe c r =
    IsConsistent r.0.manager
    × Agrees r.0.rpc_calls
    × Onward c.network r.0.network
    × (IsServed c.queues → IsServed r.0.queues)

handle_message-Safe :
    (env : Env) (c : Controller) (message : Bytes) (addr : Address)
    → IsConsistent c.manager
    → Agrees c.rpc_calls
    → find env.fresh.transport c.manager.transport_map ≡ none
    → Holds (Safe c) (handle_message env c message addr)
unfolding handle_message
handle_message-Safe env c message addr ok agrees fresh =
    let root = (env.parse message).1 in
    Holds-bind (Safe c) (root.as_string (codes "m")) _ (λ method.
      let (rpc, calls) = lookup_rpc method c.rpc_calls in
      let c' = record c { rpc_calls = calls } in
      finish (dispatch env c' root method addr rpc) calls
        (lookup_rpc-Agrees method c.rpc_calls agrees)
        (dispatch-Good env c' root ok fresh method addr rpc))
  where
    finish :
        (o : Result) (calls : Map Bytes Rpc)
        → Agrees calls
        → Holds (Good (record c { rpc_calls = calls })) o
        → Holds (Safe c) (
            o >>= λ r. pure (
              r.0,
              r.1
                  ++ (if (env.parse message).0
                      then []
                      else Controller.send_to env Requests.parse_error addr),
            ))
    finish none calls a h = tt
    finish (some r) calls a (ok', same, onward, queues) =
        (ok', rw same a, onward, λ served. rw queues served)

handle_packet-Safe :
    (env : Env) (c : Controller) (packet behind : Bytes) (addr : Address)
    → IsConsistent c.manager
    → Agrees c.rpc_calls
    → find env.fresh.transport c.manager.transport_map ≡ none
    → Holds (Safe c) (handle_packet env c packet behind addr)
unfolding handle_packet
handle_packet-Safe env c packet behind addr ok agrees fresh =
    Holds-bind (Safe c) (get_elem? (packet ++ behind) 1) _ (λ kind.
      either (Holds (Safe c)) (nat_beq kind k_tincan_packet) _ _
        (either (Holds (Safe c)) (ltb (length packet) 2) none
          (some (record c { queues = (send_to_tap c.queues (drop 2 packet)).0 }, [])) tt
          (ok, agrees, Onward-same c.network, send_to_tap-IsServed c.queues (drop 2 packet)))
        (either (Holds (Safe c)) (nat_beq kind k_icc_control || nat_beq kind k_icc_packet) _ _
          (either (Holds (Safe c)) (ltb (length packet) 2) none
            (some (record c { queues = (do_packet_send c.queues (drop 2 packet)).0 }, [])) tt
            (ok, agrees, Onward-same c.network, do_packet_send-IsServed c.queues (drop 2 packet)))
          (Holds-bind (Safe c) (message_of packet behind) _
            (λ message. handle_message-Safe env c message addr ok agrees fresh))))

-- Whatever datagram the controller sends, once HandlePacket returns: the tables of links agree if
-- they did before and a new transport would get an address that none in transport_map_ has, every
-- method is looked up with the result that init_map gives it, if it was before, a session that has
-- its timer keeps it, the times of the peers' last presence and the JIDs of the peers are as before,
-- and every posted message has its packet, if it had before.
pub handle_packet-IsConsistent :
    (env : Env) (c c' : Controller) (packet behind : Bytes) (addr : Address) (effects : List Effect)
    → IsConsistent c.manager
    → Agrees c.rpc_calls
    → find env.fresh.transport c.manager.transport_map ≡ none
    → handle_packet env c packet behind addr ≡ some (c', effects)
    → IsConsistent c'.manager
      × Agrees c'.rpc_calls
      × Onward c.network c'.network
      × (IsServed c.queues → IsServed c'.queues)
handle_packet-IsConsistent env c c' packet behind addr effects ok agrees fresh e =
    Holds-some (Safe c) _ (c', effects)
      (handle_packet-Safe env c packet behind addr ok agrees fresh) e
