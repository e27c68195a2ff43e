-- ===== src/Tests/Threads.antt =====
-- A link is made and destroyed while the packet handling thread works.
use ipop_tincan.Prelude.{ℕ, ◌≡◌, refl, true, false, some, Bytes, codes, nat_eq, bytes_eq}
use ipop_tincan.Map.{find, insert, empty}
use ipop_tincan.Manager.{Manager, init, short_uid}
use ipop_tincan.Manager.Types.{Peer}
use ipop_tincan.Manager.Links.{insert_transport_map, setup_transport, new_peer}
use ipop_tincan.Manager.Links.Creation.{made}
use ipop_tincan.Manager.Threads.{
  System, Reach, here, next, create, enter_uid, enter_transport, run_insert, look_up, destroy, idle,
  unregistering, using, free, forwarding, measuring, asking, Step, set_alive, enter_uid_map,
  enter_transport_map, uses,
}
use ipop_tincan.Manager.Threads.Safety.{Reach-alive}
use ipop_tincan.Manager.Threads.Races.{Reach-reads}
use ipop_tincan.Manager.Threads.Replay.{operations, replay, Reach-replay}
use ipop_tincan.Manager.Types.{Address}
use ipop_tincan.Tests.Sample
use ipop_tincan.Tests.Sample.{lib, link, peer_uid}

abbrev begun : Manager
begun = init 7 (codes "ipop")

abbrev peer : Peer
peer = made lib begun (Sample.fresh 100) (link peer_uid)

-- The link is there, and nothing else.
abbrev joined : System
joined = record {
  manager =
      insert_transport_map (short_uid peer.uid) peer.transport
        (enter_transport_map peer (enter_uid_map peer begun));
  alive = set_alive (λ t. false) 100 true;
  link = idle;
  packet = free;
}

joined_reached : Reach begun joined
unfolding init find empty new_peer setup_transport
joined_reached =
    next
      (next
        (next (next here (create lib (Sample.fresh 100) (link peer_uid) refl refl refl refl))
          (enter_uid peer refl refl))
        (enter_transport peer refl refl))
      (run_insert peer refl refl refl)

abbrev local : Address
local = record { host = codes "::1"; port = 5801 }

-- A packet for the peer is under way, and the link setup thread waits to destroy its link.
abbrev sending : System
sending = record joined { link = unregistering peer_uid; packet = using (short_uid peer_uid) 100 }

sending_reached : Reach begun sending
unfolding init find insert insert_transport_map empty new_peer setup_transport short_uid
sending_reached =
    next (next joined_reached (look_up (short_uid peer_uid) 100 refl refl refl))
      (destroy peer_uid refl refl refl)

Reach-alive_example :
    ((t : ℕ) → uses sending.packet ≡ some t → sending.alive t ≡ true)
    × ((short : Bytes) (t : ℕ)
        → find short sending.manager.short_uid_map ≡ some t
        → sending.alive t ≡ true)
Reach-alive_example = Reach-alive sending 7 (codes "ipop") sending_reached

Reach-replay_example : joined.manager ≡ replay (operations joined_reached) begun
Reach-replay_example = Reach-replay begun joined joined_reached refl

Reach-reads_example :
    ((short : Bytes) (t : ℕ)
      → sending.packet ≡ using short t
      → find short sending.manager.short_uid_map ≡ some t)
    × ((t : ℕ) → sending.packet ≡ measuring t → (uid : Bytes) × (sending.link ≡ asking uid))
    × (before after : System) × Reach begun before
    × Step before after
    × (before.packet ≡ forwarding)
    × (after.packet ≡ forwarding)
    × (after.manager.forward_addr ≡ local)
Reach-reads_example = Reach-reads sending 7 (codes "ipop") local sending_reached
