-- ===== src/Tests/Program.antt =====
-- Runs of the whole node: from main to a queued packet, and with one link of overlay 1.
use ipop_tincan.Prelude.{
  Returns, ◌≡◌, refl, true, false, some, List, [], ◌∷◌, map, arith, Bytes, codes, nat_eq, bytes_eq,
  drop, ◌==◌, if◌then◌else◌,
}
use ipop_tincan.JsonObject.{Object}
use ipop_tincan.Controller.Notices.{IsNotice, datagram}
use ipop_tincan.Map.{Map, find, insert, empty, find-insert_self}
use ipop_tincan.Manager.{init}
use ipop_tincan.Manager.Types.{Peer}
use ipop_tincan.Manager.Links.{
  create_transport, add_link, setup_transport, new_peer, insert_transport_map,
}
use ipop_tincan.Manager.Links.Creation.{made}
use ipop_tincan.Manager.Queues.{do_packet_send}
use ipop_tincan.Text.{compare_bytes}
use ipop_tincan.Text.CString.{c_string}
use ipop_tincan.Xmpp.{
  Network, Stanza, open_state, closed, is_from_peer, send_stanza, on_state_change,
}
use ipop_tincan.Xmpp.Session.{fresh, IsTimed}
use ipop_tincan.Controller.{Env, Effect, Json, init_map, lookup_rpc, enter_all, xmpp}
use ipop_tincan.Start.{parse_args, free_ip}
use ipop_tincan.Program.{
  Program, Chance, services, main, new_program, step, stanza, allocation_done, tap_sends,
  queue_signal, engine, with_network, with_queues,
}
use ipop_tincan.Program.Sound.{IsSound}
use ipop_tincan.Program.Steps.{Reach, here, next, Reach-main-IsSound}
use ipop_tincan.Program.Progress.{step_total}
use ipop_tincan.Program.Relaying.{message, IsAsked, handle_message-step}
use ipop_tincan.Tests.Sample.{lib, net, linked, start, link, peer_uid}
use ipop_tincan.Tests.Sample
use ipop_tincan.Manager.{short_uid}
use ipop_tincan.Manager.Packets.{dest_id, source_id}
use ipop_tincan.Manager.Packets.Routing.{p2p_channel}
use ipop_tincan.Program.Tunnel.{IsJoined, Fits, run, arrivals, reads, packets-roundtrip}
use ipop_tincan.Tests.Packets.{packet, peer_made, peer_reachable, channel_up}
use ipop_tincan.Tests.Links.{linked-IsConsistent}
use ipop_tincan.Tests.Requests.{env, controller, local, trim_request}
use ipop_tincan.Xmpp.Keys.{full_jid}
use ipop_tincan.Text.Fields.{Free}
use ipop_tincan.Controller.Requests.{handle_message}

abbrev pub mac : Bytes
mac = 1 ∷ 2 ∷ 3 ∷ 4 ∷ 5 ∷ 6 ∷ []

abbrev pub chance : Chance
chance = record { tiebreaker = 7; xmpp_state = closed; on_msg_counter = 77 }

abbrev pub begun : Program
begun = new_program chance (codes "ipop") 5800 mac (codes "172.31.0.100")

main-begun : main (codes "ipop-tincan" ∷ []) (some mac) (some []) chance ≡ some begun
unfolding main parse_args free_ip init c_string
main-begun = refl

abbrev sent : Program
sent = with_queues begun (do_packet_send begun.controller.queues (codes "packet")).0

sent_reached : Reach begun sent
unfolding step
sent_reached = next env (tap_sends (codes "packet")) [] here tt refl

abbrev opened : Program
opened = with_network sent (on_state_change (codes "u@h") open_state sent.controller.network).0

opened_reached : Reach begun opened
unfolding step
opened_reached =
    next env (engine (codes "u@h") open_state)
      (map xmpp (on_state_change (codes "u@h") open_state sent.controller.network).1) sent_reached
      tt refl

Reach-main-IsSound_example : IsSound opened
Reach-main-IsSound_example =
    Reach-main-IsSound (codes "ipop-tincan" ∷ []) (some mac) (some []) chance begun opened
      main-begun opened_reached

abbrev pub peer_jid : Bytes
peer_jid = codes "u@h/tincan"

-- The session is open and knows the peer.
abbrev network : Network
network = record (fresh open_state 0) {
  pump = true;
  tincan_task = true;
  xmpp_state = open_state;
  timers = 15000 ∷ [];
  g_uid_map = insert peer_uid peer_jid empty;
}

abbrev pub node : Program
node = record {
  controller = record controller { network = network };
  services = services;
  udp_port = 5800;
}

network-IsTimed : IsTimed network
network-IsTimed = ground arith

pub node-IsSound : IsSound node
unfolding fresh
node-IsSound = record {
  tables = linked-IsConsistent;
  methods = λ method. refl;
  friends = tt;
  timed = network-IsTimed;
  served = omega arith;
  wired = refl;
}

abbrev pub peer : Peer
peer = made lib start (Sample.fresh 100) (link peer_uid)

pub live : find 100 linked.transport_map ≡ some peer_uid
unfolding create_transport add_link setup_transport new_peer insert_transport_map init find insert
    empty
live = refl

pub there : find peer_uid linked.uid_map ≡ some peer
unfolding create_transport add_link setup_transport new_peer insert_transport_map init find insert
    empty
there = refl

pub one : peer.overlay_id ≡ 1
unfolding setup_transport new_peer
one = refl

step_total_example : Returns (step env (allocation_done 100) node)
step_total_example =
    step_total env (allocation_done 100) node node-IsSound (peer_uid, live)
      (peer_uid, peer, live, there, omega (arith, one))

abbrev k_con_req : Bytes
k_con_req = codes "con_req"

-- A request of the controller to send the peer a message, and the stanza that the peer gets.
abbrev send_request : Json
send_request = record trim_request {
  as_string = λ k.
      if k == codes "m"
      then some k_con_req
      else if k == codes "uid"
      then some peer_uid
      else some (codes "AA 1:1");
}

abbrev asking : Env
asking = record env { parse = λ s. (true, send_request) }

send-IsAsked : IsAsked asking node (codes "{}") k_con_req peer_uid (codes "AA 1:1") peer_jid
unfolding lookup_rpc init_map enter_all find insert empty
send-IsAsked = record {
  parsed = refl;
  method_named = refl;
  method_other = refl;
  overlay = 1;
  overlay_named = refl;
  uid_named = refl;
  text_named = refl;
  opened = refl;
  task = refl;
  known = find-insert_self peer_uid peer_jid empty;
}

-- The resource of a JID is what stands behind its slash.
abbrev hearing : Env
hearing = record env { jids = record env.jids { resource = drop 4 } }

abbrev pcid : Bytes
pcid = codes "00112233445566778899aabbccddeeff00112233"

abbrev asked : Stanza
asked = record {
  from = full_jid (codes "v@h") pcid (codes "F1");
  is_tincan_get = true;
  is_presence = false;
  query = some (message (codes "AA 1:1") k_con_req);
}

asked_from_peer : is_from_peer hearing.jids (codes "u@h/tincan") asked ≡ true
unfolding is_from_peer compare_bytes
asked_from_peer = refl

name-Free : Free b'/' (codes "v@h")
name-Free =
    ((λ e. absurd (omega arith)), ((λ e. absurd (omega arith)), ((λ e. absurd (omega arith)), tt)))

handle_message-step_example :
    (handle_message asking node.controller (codes "{}") local
      ≡ some (
        record node.controller { rpc_calls = (lookup_rpc k_con_req node.controller.rpc_calls).1 },
        xmpp (send_stanza peer_jid (codes "AA 1:1") k_con_req) ∷ [],
      ))
    × (jids : Map Bytes Bytes) × (o : Object) × (step hearing
          (stanza (codes "u@h/tincan") asked)
          node
        ≡ some (
          with_network node (record node.controller.network { g_uid_map = jids }),
          datagram hearing o local,
        ))
    × (find pcid jids ≡ some asked.from)
    × IsNotice o pcid (codes "AA 1:1") k_con_req
handle_message-step_example =
    handle_message-step asking hearing node node (codes "{}") k_con_req peer_uid (codes "AA 1:1")
      peer_jid (codes "u@h/tincan") (codes "v@h") pcid (codes "F1") local asked send-IsAsked refl
      name-Free (omega arith) refl refl asked_from_peer refl

-- Two packets to and from the peer of the sample, whose link has the channel 200.
abbrev packets : List Bytes
packets = packet ∷ packet ∷ []

to_peer : p2p_channel lib net linked packet ≡ some 200
unfolding create_transport add_link setup_transport new_peer insert_transport_map init find insert
    empty dest_id short_uid
to_peer = refl

from_peer : source_id lib packet ≡ short_uid peer_uid
unfolding source_id short_uid
from_peer = refl

packet-Fits : Fits env env node 200 peer_uid 1500 packet
packet-Fits = (omega arith, omega arith, to_peer, from_peer)

node-IsJoined : IsJoined env node 200 peer_uid
node-IsJoined = record { peer = peer_made; known = peer_reachable; up = channel_up }

packets-roundtrip_example :
    (sender' receiver' : Program) × (effects : List Effect) × (run env
        (tap_sends packet ∷ tap_sends packet ∷ queue_signal 9 ∷ queue_signal 9 ∷ [])
        node
      ≡ some (sender', effects))
    × (run env (arrivals 200 200 effects) node ≡ some (receiver', []))
    × (reads 1500 2 receiver'.controller.queues ≡ some (node.controller.queues, packets))
packets-roundtrip_example =
    packets-roundtrip env env node node 9 200 200 1500 peer_uid packets node-IsJoined refl refl refl
      refl (packet-Fits, (packet-Fits, tt))
