-- ===== src/Tests/Packets.antt =====
-- A packet over the link of the sample, one to the controller, and the queues.
use ipop_tincan.Prelude.{
  ◌≡◌, ◌≢◌, take, refl, ◌⊎◌, true, some, List, [], ◌∷◌, ◌++◌, Bytes, arith, replicate, nat_eq,
  bytes_eq,
}
use ipop_tincan.Map.{empty, find, insert}
use ipop_tincan.Manager.{init, short_uid, k_null_peer_id}
use ipop_tincan.Manager.Types.{Peer, channel_send, forward_send}
use ipop_tincan.Manager.Queues.{Queues}
use ipop_tincan.Manager.Links.{
  create_transport, destroy_transport, add_link, setup_transport, new_peer, insert_transport_map,
}
use ipop_tincan.Manager.Links.Creation.{made}
use ipop_tincan.Manager.Packets.{is_icc, handle_packet, dest_id, on_read_packet}
use ipop_tincan.Manager.Packets.Routing.{handle_packet-route}
use ipop_tincan.Manager.Packets.Admission.{Authentic, on_read_packet-Authentic}
use ipop_tincan.Manager.Packets.Delivery.{Moment, Event, sends, dispatch, Served, run-Served}
use ipop_tincan.Tests.Sample.{
  far_linked, colliding, other_uid, lib, net, linked, start, fresh, link, peer_uid,
}
use ipop_tincan.Tests.Links.{
  peer_there, other_there, other_made, ids_differ, far-History, linked-IsConsistent,
}
use ipop_tincan.Manager.Packets.Following.{
  Over, WritableOver, History-Over, handle_packet-destroy_transport,
}
use ipop_tincan.Manager.Packets.{source_id}
use ipop_tincan.Prelude.{◌↔◌, codes}

-- Source and destination are the peer's id, whose first eight bytes are zero.
abbrev pub packet : Bytes
packet = replicate 40 0

-- The ICC prefix, and a type byte that is neither of the two.
abbrev odd_packet : Bytes
odd_packet = replicate 40 0 ++ 0x00 ∷ 0x69 ∷ 0x70 ∷ 0x6f ∷ 0x70 ∷ 0x09 ∷ 0 ∷ []

abbrev icc_packet : Bytes
icc_packet = replicate 40 0 ++ 0x00 ∷ 0x69 ∷ 0x70 ∷ 0x6f ∷ 0x70 ∷ 0x04 ∷ 0 ∷ []

abbrev idle_queues : Queues
idle_queues = record { send_queue = []; recv_queue = []; posted = 0; has_manager = true }

abbrev pub peer_made : Peer
peer_made = made lib start (fresh 100) (link peer_uid)

-- Source and destination are the far id.
abbrev far_packet : Bytes
far_packet = replicate 40 0xbb

far_other : dest_id lib far_packet ≢ take 16 k_null_peer_id
unfolding dest_id k_null_peer_id
far_other e = cc e

handle_packet-route_example :
    handle_packet lib net 9 far_linked far_packet ≡ channel_send 200 far_packet ∷ []
unfolding create_transport add_link setup_transport new_peer insert_transport_map init find insert
    empty dest_id short_uid
handle_packet-route_example =
    handle_packet-route lib net 9 far_linked far_packet (omega arith) far_other

odd_is_icc : is_icc odd_packet ≡ true
unfolding is_icc
odd_is_icc = refl

abbrev received : Queues
received = record idle_queues { recv_queue = packet ∷ [] }

on_read_packet-Authentic_example :
    (on_read_packet lib net linked idle_queues 200 packet ≡ idle_queues)
    ⊎ ((on_read_packet lib net linked idle_queues 200 packet ≡ received)
        × Authentic lib net linked 200 packet)
on_read_packet-Authentic_example =
    on_read_packet-Authentic lib net linked idle_queues 200 packet linked-IsConsistent

pub peer_reachable : find (short_uid peer_uid) linked.short_uid_map ≡ some peer_made.transport
unfolding create_transport add_link setup_transport new_peer insert_transport_map init find insert
    empty short_uid
peer_reachable = refl

pub channel_up : net.get_channel peer_made.transport ≡ some 200
unfolding setup_transport new_peer
channel_up = refl

abbrev moment : Moment
moment = record { net = net; unset = 9; manager = linked }

-- Two packets, with one dispatch between them and two after.
abbrev schedule : List Event
schedule =
    sends packet ∷ dispatch moment ∷ sends icc_packet ∷ dispatch moment ∷ dispatch moment ∷ []

run-Served_example : Served lib schedule idle_queues
run-Served_example = run-Served lib schedule idle_queues (omega arith)

History-Over_example :
    ((handle_packet lib net 9 far_linked far_packet ≡ channel_send 200 far_packet ∷ [])
      ↔ WritableOver net far_linked (dest_id lib far_packet) 200)
    × ((on_read_packet lib net far_linked idle_queues 200 far_packet
          ≡ record idle_queues { recv_queue = far_packet ∷ [] })
        ↔ Over net far_linked (source_id lib far_packet) 200)
History-Over_example =
    History-Over 7 (codes "ipop") far_linked lib net 9 idle_queues far_packet 200 far-History
      (omega arith) far_other

-- The link of the second id stays, but no packet uses it.
handle_packet-destroy_transport_example :
    let m = (destroy_transport colliding peer_uid).0 in
    (find other_uid m.uid_map ≡ some other_made)
    × (handle_packet lib net 9 m icc_packet ≡ forward_send m.forward_addr (3 ∷ 4 ∷ icc_packet) ∷ [])
    × (on_read_packet lib net m idle_queues 201 packet ≡ idle_queues)
unfolding dest_id source_id
handle_packet-destroy_transport_example =
    handle_packet-destroy_transport lib net 9 colliding peer_uid other_uid peer_made other_made
      idle_queues icc_packet packet 201 peer_there other_there ids_differ refl (omega arith)
      (omega arith) refl refl
