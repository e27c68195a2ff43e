-- ===== src/Tests/Links.antt =====
-- Runs of CreateTransport, DestroyTransport and SetupTransport.
use ipop_tincan.Prelude.{
  ◌≡◌, refl, ◌≢◌, ◌⊎◌, ◌↔◌, none, some, [], ◌∷◌, Bytes, codes, bytes_beq_iff, nat_eq, bytes_eq, sym,
}
use ipop_tincan.Map.{empty, find, insert, find-empty}
use ipop_tincan.Manager.{Manager, init, short_uid}
use ipop_tincan.Manager.Types.{Peer, delete_transport}
use ipop_tincan.Manager.Links.{
  create_transport, destroy_transport, add_link, setup_transport, new_peer, insert_transport_map,
}
use ipop_tincan.Manager.Links.Roles.{Offers, Answers, setup_transport-opposite}
use ipop_tincan.Manager.Links.Safety.{Owner, IsConsistent, init-IsConsistent}
use ipop_tincan.Manager.Links.Creation.{made, uid-made, create_transport-IsConsistent}
use ipop_tincan.Manager.Links.Reachability.{NoCollision}
use ipop_tincan.Manager.Links.Directory.{History, begun, History-Owner}
use ipop_tincan.Tests.Sample.{
  lib, start, linked, colliding, fresh, link, peer_uid, other_uid, far_uid, far_linked,
}

free_at_start : find 100 start.transport_map ≡ none
unfolding init
free_at_start = find-empty 100

pub free_when_linked : find 101 linked.transport_map ≡ none
unfolding create_transport add_link setup_transport new_peer insert_transport_map init find insert
    empty
free_when_linked = refl

pub linked-IsConsistent : IsConsistent linked
linked-IsConsistent =
    create_transport-IsConsistent lib start (fresh 100) (link peer_uid)
      (init-IsConsistent 7 (codes "ipop")) free_at_start

destroyed : (destroy_transport linked peer_uid).2 ≡ delete_transport 100 ∷ []
unfolding destroy_transport create_transport add_link setup_transport new_peer insert_transport_map
    init find insert empty
destroyed = refl

start-NoCollision : NoCollision start peer_uid
unfolding init
start-NoCollision v q h = absurd (cc (h, find-empty {V = Peer} v))

pub linked-History : History start linked
linked-History =
    History.created lib (fresh 100) (link peer_uid) begun free_at_start start-NoCollision refl

History-Owner_example :
    (find (short_uid peer_uid) linked.short_uid_map ≡ some 100)
    ↔ Owner linked (short_uid peer_uid) 100
History-Owner_example =
    History-Owner 7 (codes "ipop") linked (short_uid peer_uid) 100 linked-History

abbrev peer_made : Peer
peer_made = made lib start (fresh 100) (link peer_uid)

abbrev pub other_made : Peer
other_made = made lib linked (fresh 101) (link other_uid)

pub peer_there : find peer_uid colliding.uid_map ≡ some peer_made
unfolding create_transport add_link setup_transport new_peer insert_transport_map init find insert
    empty
peer_there = refl

pub other_there : find other_uid colliding.uid_map ≡ some other_made
unfolding create_transport add_link setup_transport new_peer insert_transport_map init find insert
    empty
other_there = refl

pub ids_differ : peer_uid ≢ other_uid
ids_differ e = cc ((bytes_beq_iff peer_uid other_uid).1 e)

far-NoCollision : NoCollision start far_uid
unfolding init
far-NoCollision v q h = absurd (cc (h, find-empty {V = Peer} v))

pub far-History : History start far_linked
far-History =
    History.created lib (fresh 100) (link far_uid) begun free_at_start far-NoCollision refl

abbrev node : Bytes → Manager
node uid = record start { tincan_id = uid }

setup_transport-opposite_example :
    (Offers lib (node other_uid) peer_made × Answers lib (node peer_uid) other_made)
    ⊎ (Answers lib (node other_uid) peer_made × Offers lib (node peer_uid) other_made)
setup_transport-opposite_example =
    setup_transport-opposite lib lib (node other_uid) (node peer_uid) peer_made other_made
      (uid-made lib start (fresh 100) (link peer_uid))
      (uid-made lib linked (fresh 101) (link other_uid)) (λ e. ids_differ (sym e))
