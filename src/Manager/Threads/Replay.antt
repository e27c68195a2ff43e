-- ===== src/Manager/Threads/Replay.antt =====
-- The operations that the link setup thread begins in a run, and the tables that they leave.
use ipop_tincan.Prelude.{
  ◌≡◌, refl, ap, ◌∙◌, false, true, ◌||◌, none, some, List, [], ◌∷◌, arith, Bytes, nat_eq, bytes_eq,
  ◌==◌, inl, inr, Option-cases,
}
use ipop_tincan.Map.{find, has}
use ipop_tincan.Manager.{Manager, Libjingle, set_forward_addr, short_uid}
use ipop_tincan.Manager.Types.{Address}
use ipop_tincan.Manager.Links.{
  Link, Fresh, insert_transport_map, delete_transport_map, remove_link, add_link, create_transport,
  destroy_transport,
}
use ipop_tincan.Manager.Links.Creation.{made}
use ipop_tincan.Manager.Links.Removal.{uid_map-delete, destroy_transport-found}
use ipop_tincan.Manager.Threads.{
  LinkPc, idle, making, entered, registering, unregistering, unregistered, erased, dropping, asking,
  storing, System, enter_uid_map, enter_transport_map, erase_transport_map, erase_uid_map, Step,
  create, enter_uid, enter_transport, run_insert, destroy, run_delete, erase_transport, erase_uid,
  drop_peer, ask, run_stats, end_stats, begin_endpoint, store_endpoint, look_up, end_use,
  begin_forward, end_forward, Reach, here, next,
}

-- What the controller can have the link setup thread do to the tables.
pub data Operation : Type 0 where
  creates : Libjingle → Fresh → Link → Operation
  destroys : Bytes → Operation
  readdresses : Address → Operation

-- An operation done at once.
unfoldable pub perform : Operation → Manager → Manager
perform (creates lib new l) m = (create_transport lib m new l).0
perform (destroys uid) m = (destroy_transport m uid).0
perform (readdresses addr) m = set_forward_addr addr m

-- Operations one after another, the last one first in the list.
unfoldable pub replay : List Operation → Manager → Manager
replay [] m = m
replay (o ∷ os) m = perform o (replay os m)

-- The operation that a step begins, if any.
abbrev pub begins : {s t : System} → Step s t → List Operation → List Operation
begins (create lib new l e guard unused q) os = creates lib new l ∷ os
begins (destroy uid e there q) os = destroys uid ∷ os
begins (begin_endpoint addr e q) os = readdresses addr ∷ os
begins _ os = os

-- The operations that a run has begun, the last one first.
unfoldable pub operations : {m : Manager} {s : System} → Reach m s → List Operation
operations here = []
operations (next r step) = begins step (operations r)

-- The tables once the operation that runs is done.
unfoldable finish_erasing : Bytes → Manager → Manager
finish_erasing uid m = elim (find uid m.uid_map) [
  | none ↦ m
  | some p ↦ erase_uid_map uid (erase_transport_map p m)
]

unfoldable finish : LinkPc → Manager → Manager
finish idle m = m
finish (making p) m =
    insert_transport_map (short_uid p.uid) p.transport (enter_transport_map p (enter_uid_map p m))
finish (entered p) m = insert_transport_map (short_uid p.uid) p.transport (enter_transport_map p m)
finish (registering p) m = insert_transport_map (short_uid p.uid) p.transport m
finish (unregistering uid) m = finish_erasing uid (delete_transport_map (short_uid uid) m)
finish (unregistered uid) m = finish_erasing uid m
finish (erased uid p) m = erase_uid_map uid m
finish (dropping p) m = m
finish (asking uid) m = m
finish (storing addr) m = set_forward_addr addr m

finish-making :
    (lib : Libjingle) (m : Manager) (new : Fresh) (l : Link)
    → (has l.uid m.uid_map || m.tincan_id == l.uid) ≡ false
    → finish (making (made lib m new l)) m ≡ perform (creates lib new l) m
unfolding finish perform create_transport add_link
finish-making lib m new l guard = ground (arith, guard)

finish-unregistering :
    (m : Manager) (uid : Bytes)
    → has uid m.uid_map ≡ true
    → finish (unregistering uid) m ≡ perform (destroys uid) m
unfolding finish finish_erasing perform remove_link
finish-unregistering m uid there = elim (Option-cases (find uid m.uid_map)) [
  | inl gone ↦ absurd (ground arith)
  | inr (p, live) ↦
      ground (arith, live, uid_map-delete (short_uid uid) m, destroy_transport-found m uid p live)
]

idle-replay :
    (s : System) (m : Manager) (os : List Operation)
    → s.link ≡ idle
    → finish s.link s.manager ≡ replay os m
    → s.manager ≡ replay os m
unfolding finish
idle-replay s m os e h = ground (arith, e, h)

-- A step ends an operation where it was going to end, and begins one that has all to do.
finish-Step :
    (m : Manager) (os : List Operation) {s t : System} (step : Step s t)
    → finish s.link s.manager ≡ replay os m
    → finish t.link t.manager ≡ replay (begins step os) m
unfolding finish finish_erasing replay perform
finish-Step m os {s} {t} (create lib new l e guard unused q) h = rw q (
    finish-making lib s.manager new l guard
    ∙ ap (perform (creates lib new l)) (idle-replay s m os e h))
finish-Step m os {s} {t} (enter_uid p e q) h = ground arith
finish-Step m os {s} {t} (enter_transport p e q) h = ground arith
finish-Step m os {s} {t} (run_insert p e f q) h = ground arith
finish-Step m os {s} {t} (destroy uid e there q) h = rw q (
    finish-unregistering s.manager uid there ∙ ap (perform (destroys uid)) (idle-replay s m os e h))
finish-Step m os {s} {t} (run_delete uid e f q) h = ground arith
finish-Step m os {s} {t} (erase_transport uid p e there q) h = ground arith
finish-Step m os {s} {t} (erase_uid uid p e q) h = ground arith
finish-Step m os {s} {t} (drop_peer p e q) h = ground arith
finish-Step m os {s} {t} (ask uid e there q) h = ground arith
finish-Step m os {s} {t} (run_stats uid p e f there q) h = ground arith
finish-Step m os {s} {t} (end_stats uid transport e f q) h = ground arith
finish-Step m os {s} {t} (begin_endpoint addr e q) h = ground arith
finish-Step m os {s} {t} (store_endpoint addr e q) h = ground arith
finish-Step m os {s} {t} (look_up short transport f there q) h = ground arith
finish-Step m os {s} {t} (end_use short transport f q) h = ground arith
finish-Step m os {s} {t} (begin_forward f q) h = ground arith
finish-Step m os {s} {t} (end_forward f q) h = ground arith

finish-Reach :
    (m : Manager) {s : System} (r : Reach m s) → finish s.link s.manager ≡ replay (operations r) m
unfolding operations
finish-Reach m here = unfold finish in unfold replay in refl
finish-Reach m (next r step) = finish-Step m (operations r) step (finish-Reach m r)

-- However the two threads interleave, whenever the link setup thread is between two operations the
-- tables are those that the operations it has begun leave, if each is done at once, one after the
-- other in the order in which they began: CreateTransport and DestroyTransport past their tests, and
-- set_forward_addr.
pub Reach-replay :
    (m : Manager) (s : System) (r : Reach m s) → s.link ≡ idle → s.manager ≡ replay (operations r) m
Reach-replay m s r e = idle-replay s m (operations r) e (finish-Reach m r)
