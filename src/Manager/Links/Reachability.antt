-- ===== src/Manager/Links/Reachability.antt =====
-- Which live peers the packet handling thread finds under their short ids, and what two ids with
-- the same first sixteen characters do to one another.
use ipop_tincan.Prelude.{
  ◌≡◌, ◌∙◌, ◌≢◌, inl, inr, none, some, arith, Bytes, nat_eq, bytes_eq, bytes_beq_iff, Option-cases,
}
use ipop_tincan.Map.{
  find, find-insert_self, find-insert_inv, find-insert_ne, find-erase_inv, find-erase_ne,
}
use ipop_tincan.Manager.{Manager, Libjingle, short_uid}
use ipop_tincan.Manager.Types.{Peer}
use ipop_tincan.Manager.Links.{
  Link, Fresh, add_link, remove_link, create_transport, destroy_transport,
}
use ipop_tincan.Manager.Links.Safety.{IsConsistent, transport-injective}
use ipop_tincan.Manager.Links.Removal.{
  uid_map-remove_link, short_uid_map-remove_link, find-delete_transport_map,
  destroy_transport-found, destroy_transport-missing,
}
use ipop_tincan.Manager.Links.Creation.{made, uid-made, create_transport-cases}

-- Every live peer is found under its short id, with its own transport.
abbrev pub IsReachable : Manager → Type 0
IsReachable m =
    (uid : Bytes) (p : Peer)
    → find uid m.uid_map ≡ some p
    → find (short_uid uid) m.short_uid_map ≡ some p.transport

-- No live peer has the short id of this id.
abbrev pub NoCollision : Manager → Bytes → Type 0
NoCollision m uid = (v : Bytes) (q : Peer) → find v m.uid_map ≡ some q → short_uid uid ≢ short_uid v

add_link-IsReachable :
    (m : Manager) (p : Peer) → IsReachable m → NoCollision m p.uid → IsReachable (add_link p m)
unfolding add_link
add_link-IsReachable m p r alone u q h = elim (find-insert_inv p.uid u p m.uid_map h) [
  | inl (e, f) ↦ cc (e, f, find-insert_self (short_uid p.uid) p.transport m.short_uid_map)
  | inr (e, f) ↦
      find-insert_ne (short_uid p.uid) (short_uid u) p.transport m.short_uid_map (alone u q f)
      ∙ r u q f
]

-- CreateTransport keeps every live peer reachable, if no live peer shares the first sixteen
-- characters of the new id.
pub create_transport-IsReachable :
    (lib : Libjingle) (m : Manager) (new : Fresh) (l : Link)
    → IsReachable m
    → NoCollision m l.uid
    → IsReachable (create_transport lib m new l).0
create_transport-IsReachable lib m new l r alone = elim (create_transport-cases lib m new l) [
  | inl (why, e) ↦ rw e r
  | inr (free, other, e, done) ↦
      rw e (add_link-IsReachable m (made lib m new l) r (rw uid-made alone))
]

remove_link-IsReachable :
    (m : Manager) (uid : Bytes) (p : Peer)
    → IsConsistent m
    → IsReachable m
    → find uid m.uid_map ≡ some p
    → IsReachable (remove_link uid p m)
remove_link-IsReachable m uid p c r live u q h =
    let (ne, f) = find-erase_inv uid u m.uid_map (rw uid_map-remove_link at h) in
    let apart : short_uid uid ≢ short_uid u =
      λ e. ne (transport-injective uid u p q c live f (cc (r uid p live, r u q f, e))) in
    ground (
      arith,
      short_uid_map-remove_link uid p m,
      find-delete_transport_map (short_uid uid) (short_uid u) m,
      bytes_beq_iff (short_uid uid) (short_uid u),
      r u q f,
    )

-- DestroyTransport keeps every remaining peer reachable, if all were.
pub destroy_transport-IsReachable :
    (m : Manager) (uid : Bytes)
    → IsConsistent m
    → IsReachable m
    → IsReachable (destroy_transport m uid).0
destroy_transport-IsReachable m uid c r = elim (Option-cases (find uid m.uid_map)) [
  | inl gone ↦ rw (destroy_transport-missing m uid gone) r
  | inr (p, live) ↦
      rw (destroy_transport-found m uid p live) (remove_link-IsReachable m uid p c r live)
]

-- When two live peers share the first sixteen characters of their ids, destroying the link of one
-- leaves the other live and takes it out of the short table.
pub destroy_transport-hides :
    (m : Manager) (u v : Bytes) (p q : Peer)
    → find u m.uid_map ≡ some p
    → find v m.uid_map ≡ some q
    → u ≢ v
    → short_uid u ≡ short_uid v
    → let m' = (destroy_transport m u).0 in
      (find v m'.uid_map ≡ some q) × (find (short_uid v) m'.short_uid_map ≡ none)
destroy_transport-hides m u v p q hu hv ne e = rw (destroy_transport-found m u p hu) (
  rw uid_map-remove_link (find-erase_ne u v m.uid_map ne ∙ hv),
  ground (
    arith,
    short_uid_map-remove_link u p m,
    find-delete_transport_map (short_uid u) (short_uid v) m,
    bytes_beq_iff (short_uid u) (short_uid v),
  ),
)
