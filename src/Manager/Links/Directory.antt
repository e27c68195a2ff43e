-- ===== src/Manager/Links/Directory.antt =====
-- The tables of links as a directory: over a history of CreateTransport and DestroyTransport, which
-- short ids lead to which transports.
use ipop_tincan.Prelude.{ℕ, ◌≡◌, ◌↔◌, none, some, Bytes, nat_eq, bytes_eq}
use ipop_tincan.Map.{find, find-empty}
use ipop_tincan.Manager.{Manager, Libjingle, init}
use ipop_tincan.Manager.Types.{Peer}
use ipop_tincan.Manager.Links.{Link, Fresh, create_transport, destroy_transport}
use ipop_tincan.Manager.Links.Safety.{IsConsistent, Owner, init-IsConsistent}
use ipop_tincan.Manager.Links.Creation.{create_transport-IsConsistent}
use ipop_tincan.Manager.Links.Removal.{destroy_transport-IsConsistent}
use ipop_tincan.Manager.Links.Reachability.{
  IsReachable, NoCollision, create_transport-IsReachable, destroy_transport-IsReachable,
}

-- Links are made and destroyed from some tables on, each at a free address and for an id whose first
-- sixteen characters no live peer has.
pub data History (m : Manager) : Manager → Type 0 where
  begun : History m m
  created :
      {a b : Manager} (lib : Libjingle) (new : Fresh) (l : Link)
      → History m a
      → find new.transport a.transport_map ≡ none
      → NoCollision a l.uid
      → b ≡ (create_transport lib a new l).0
      → History m b
  destroyed :
      {a b : Manager} (uid : Bytes) → History m a → b ≡ (destroy_transport a uid).0 → History m b

History-kept :
    {m a : Manager} → IsConsistent m → IsReachable m → History m a → IsConsistent a × IsReachable a
History-kept c r begun = (c, r)
History-kept c r (created {a} lib new l h fresh alone e) =
    let (k, s) = History-kept c r h in
    rw e (
      create_transport-IsConsistent lib a new l k fresh,
      create_transport-IsReachable lib a new l s alone,
    )
History-kept c r (destroyed {a} uid h e) =
    let (k, s) = History-kept c r h in
    rw e (destroy_transport-IsConsistent a uid k, destroy_transport-IsReachable a uid k s)

init-IsReachable : (tiebreaker : ℕ) (tap_name : Bytes) → IsReachable (init tiebreaker tap_name)
unfolding init
init-IsReachable tiebreaker tap_name uid p live = absurd (cc (live, find-empty {V = Peer} uid))

-- Over every history of links from the start of a manager in which no two live peers share the first
-- sixteen characters of their ids, a short id is found with a transport exactly when a live peer has
-- that short id and that transport.
pub History-Owner :
    (tiebreaker : ℕ) (tap_name : Bytes) (m : Manager) (short : Bytes) (transport : ℕ)
    → History (init tiebreaker tap_name) m
    → (find short m.short_uid_map ≡ some transport) ↔ Owner m short transport
History-Owner tiebreaker tap_name m short transport h =
    let (c, r) =
      History-kept (init-IsConsistent tiebreaker tap_name) (init-IsReachable tiebreaker tap_name)
        h in
    (
      c.short_owned short transport,
      λ o. let (uid, p, live, key, e) = o in cc (r uid p live, key, e),
    )
