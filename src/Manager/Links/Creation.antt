-- ===== src/Manager/Links/Creation.antt =====
-- CreateTransport, when it adds a link, and the three tables of links.
use ipop_tincan.Prelude.{
  ◌≡◌, ◌≢◌, ◌⊎◌, inl, inr, true, false, none, [], arith, nat_eq, bytes_eq, ◌==◌, bytes_beq_iff,
  Bool-cases, Option-cases,
}
use ipop_tincan.Map.{find, has}
use ipop_tincan.Manager.{Manager, Libjingle}
use ipop_tincan.Manager.Types.{Peer}
use ipop_tincan.Manager.Links.{Link, Fresh, add_link, new_peer, setup_transport, create_transport}
use ipop_tincan.Manager.Links.Safety.{IsConsistent, add_link-IsConsistent}

-- The peer that CreateTransport stores.
abbrev pub made : Libjingle → Manager → Fresh → Link → Peer
made lib m new l = (setup_transport lib m (new_peer lib m new l)).0

pub uid-made :
    (lib : Libjingle) (m : Manager) (new : Fresh) (l : Link) → (made lib m new l).uid ≡ l.uid
unfolding setup_transport new_peer
uid-made lib m new l = ground arith

pub transport-made :
    (lib : Libjingle) (m : Manager) (new : Fresh) (l : Link)
    → (made lib m new l).transport ≡ new.transport
unfolding setup_transport new_peer
transport-made lib m new l = ground arith

-- Either a link is there for the id, or the id is the node's own, and nothing happens; or neither,
-- and the new peer is added.
pub create_transport-cases :
    (lib : Libjingle) (m : Manager) (new : Fresh) (l : Link)
    → (((has l.uid m.uid_map ≡ true) ⊎ (m.tincan_id ≡ l.uid))
        × (create_transport lib m new l ≡ (m, false, [])))
      ⊎ ((find l.uid m.uid_map ≡ none)
          × (m.tincan_id ≢ l.uid)
          × ((create_transport lib m new l).0 ≡ add_link (made lib m new l) m)
          × ((create_transport lib m new l).1 ≡ true))
unfolding create_transport
create_transport-cases lib m new l = elim (Option-cases (find l.uid m.uid_map)) [
  | inr (p, e) ↦ inl (inl (rw e), ground arith)
  | inl e ↦ elim (Bool-cases (m.tincan_id == l.uid)) [
    | inl own ↦ inl (inr ((bytes_beq_iff m.tincan_id l.uid).0 own), ground arith)
    | inr other ↦
        inr
          (e, (λ q. cc (other, (bytes_beq_iff m.tincan_id l.uid).1 q)), ground arith, ground arith)
  ]
]

-- CreateTransport, given a transport at an address that no live transport has, keeps the tables
-- consistent, whether it adds a link or refuses.
pub create_transport-IsConsistent :
    (lib : Libjingle) (m : Manager) (new : Fresh) (l : Link)
    → IsConsistent m
    → find new.transport m.transport_map ≡ none
    → IsConsistent (create_transport lib m new l).0
create_transport-IsConsistent lib m new l c fresh = elim (create_transport-cases lib m new l) [
  | inl (why, e) ↦ rw e c
  | inr (free, other, e, done) ↦
      rw e
        (add_link-IsConsistent m (made lib m new l) c (rw uid-made free) (rw transport-made fresh))
]
