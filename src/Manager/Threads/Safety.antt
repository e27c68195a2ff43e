-- ===== src/Manager/Threads/Safety.antt =====
-- The two threads of TinCanConnectionManager in every interleaving: what the tables are between two
-- operations, and which transports the packet handling thread calls.
use mathlib.Core.Path.{subst}
use ipop_tincan.Prelude.{
  ℕ, ◌≡◌, refl, sym, ap, ◌∙◌, Bool, true, false, ◌||◌, some, arith, Bytes, nat_eq, bytes_eq, ◌==◌,
}
use ipop_tincan.Map.{find, has, find-empty}
use ipop_tincan.Manager.{Manager, Libjingle, init, short_uid}
use ipop_tincan.Manager.Types.{Peer}
use ipop_tincan.Manager.Links.{
  Link, Fresh, insert_transport_map, delete_transport_map, remove_link, add_link,
}
use ipop_tincan.Manager.Links.Safety.{init-IsConsistent}
use ipop_tincan.Manager.Links.Creation.{made, transport-made}
use ipop_tincan.Manager.Links.Removal.{uid_map-delete}
use ipop_tincan.Manager.Threads.{
  LinkPc, idle, making, entered, registering, unregistering, unregistered, erased, dropping, asking,
  storing, PacketPc, free, using, measuring, forwarding, System, set_alive, enter_uid_map,
  enter_transport_map, erase_transport_map, erase_uid_map, Step, create, enter_uid, enter_transport,
  run_insert, destroy, run_delete, erase_transport, erase_uid, drop_peer, ask, run_stats, end_stats,
  begin_endpoint, store_endpoint, look_up, end_use, begin_forward, end_forward, start, Reach, here,
  next, uses,
}
use ipop_tincan.Manager.Threads.Phases.{Phase, HoldsOn, IsSafe}
use ipop_tincan.Manager.Threads.Settling.{
  short-alive, fresh-transport, Settled-alive, Settled-dropped, Settled-created,
  Settled-readdressed,
}

abbrev is_asking : LinkPc → Bool
is_asking (asking uid) = true
is_asking _ = false

-- A step of the link setup thread alone, which leaves the short table.
module _ (s : System) (l l' : LinkPc) (now : Manager) (alive : ℕ → Bool) (at : s.link ≡ l)
    (other : is_asking l ≡ false) (same : now.short_uid_map ≡ s.manager.short_uid_map) where
  link-packet : (k : PacketPc) → HoldsOn s.link s.manager s.alive k → HoldsOn l' now alive k
  link-packet free h = tt
  link-packet (using short t) h = rw same h
  link-packet (measuring t) (uid, waits, lives) =
      let waits' : asking uid ≡ l = sym waits ∙ at in absurd (cc (other, ap is_asking waits'))
  link-packet forwarding h = tt

  link-IsSafe :
      IsSafe s → Phase l' now alive → IsSafe (record s { link = l'; manager = now; alive = alive })
  link-IsSafe v ph = record { phase = ph; packet = link-packet s.packet v.packet }

-- The phase of a thread that is known to stand somewhere.
Phase-at : (s : System) (l : LinkPc) → IsSafe s → s.link ≡ l → Phase l s.manager s.alive
Phase-at s l v e = subst (λ l. Phase l s.manager s.alive) e v.phase

create-IsSafe :
    (s : System) (lib : Libjingle) (new : Fresh) (l : Link)
    → s.link ≡ idle
    → (has l.uid s.manager.uid_map || s.manager.tincan_id == l.uid) ≡ false
    → s.alive new.transport ≡ false
    → IsSafe s
    → IsSafe (record s {
      link = making (made lib s.manager new l);
      alive = set_alive s.alive new.transport true;
    })
create-IsSafe s lib new l e guard unused v =
    let settled = Phase-at s idle v e in
    link-IsSafe s idle (making (made lib s.manager new l)) s.manager
      (set_alive s.alive new.transport true) e refl refl v
      (record {
        settled = Settled-alive new.transport settled;
        exists = rw transport-made (ground arith);
        lib = lib;
        new = new;
        args = l;
        is_made = refl;
        untaken = guard;
        unused = fresh-transport new.transport settled unused;
      })

run_insert-IsSafe :
    (s : System) (p : Peer)
    → s.link ≡ registering p
    → s.packet ≡ free
    → IsSafe s
    → IsSafe (record s {
      link = idle;
      manager = insert_transport_map (short_uid p.uid) p.transport s.manager;
    })
run_insert-IsSafe s p e f v =
    let (a, c, now) = Phase-at s (registering p) v e in
    record {
      phase =
          Settled-created p a _ c
            (unfold add_link in ap (insert_transport_map (short_uid p.uid) p.transport) now);
      packet = rw f tt;
    }

run_delete-IsSafe :
    (s : System) (uid : Bytes)
    → s.link ≡ unregistering uid
    → s.packet ≡ free
    → IsSafe s
    → IsSafe (record s {
      link = unregistered uid;
      manager = delete_transport_map (short_uid uid) s.manager;
    })
run_delete-IsSafe s uid e f v = record {
  phase = (s.manager, Phase-at s (unregistering uid) v e, refl);
  packet = rw f tt;
}

Step-IsSafe : {s t : System} → Step s t → IsSafe s → IsSafe t
Step-IsSafe {s} {t} (create lib new l e guard unused q) v =
    rw q (create-IsSafe s lib new l e guard unused v)
Step-IsSafe {s} {t} (enter_uid p e q) v = rw q (
    link-IsSafe s (making p) (entered p) (enter_uid_map p s.manager) s.alive e refl refl v
      (s.manager, Phase-at s (making p) v e, refl))
Step-IsSafe {s} {t} (enter_transport p e q) v =
    let (a, c, now) = Phase-at s (entered p) v e in
    rw q (
      link-IsSafe s (entered p) (registering p) (enter_transport_map p s.manager) s.alive e refl
        refl v (a, c, ap (enter_transport_map p) now))
Step-IsSafe {s} {t} (run_insert p e f q) v = rw q (run_insert-IsSafe s p e f v)
Step-IsSafe {s} {t} (destroy uid e there q) v =
    rw q
      (link-IsSafe s idle (unregistering uid) s.manager s.alive e refl refl v (Phase-at s idle v e))
Step-IsSafe {s} {t} (run_delete uid e f q) v = rw q (run_delete-IsSafe s uid e f v)
Step-IsSafe {s} {t} (erase_transport uid p e there q) v =
    let (a, settled, now) = Phase-at s (unregistered uid) v e in
    rw q (
      link-IsSafe s (unregistered uid) (erased uid p) (erase_transport_map p s.manager) s.alive e
        refl refl v
        (
          a,
          record { settled = settled; live = rw (now, uid_map-delete) at there },
          ap (erase_transport_map p) now,
        ))
Step-IsSafe {s} {t} (erase_uid uid p e q) v =
    let (a, d, now) = Phase-at s (erased uid p) v e in
    rw q (
      link-IsSafe s (erased uid p) (dropping p) (erase_uid_map uid s.manager) s.alive e refl refl v
        (a, uid, d, ap (erase_uid_map uid) now ∙ unfold remove_link in refl))
Step-IsSafe {s} {t} (drop_peer p e q) v =
    let (a, uid, d, now) = Phase-at s (dropping p) v e in
    rw q (
      link-IsSafe s (dropping p) idle s.manager (set_alive s.alive p.transport false) e refl refl v
        (rw now (Settled-dropped uid p d)))
Step-IsSafe {s} {t} (ask uid e there q) v =
    rw q (link-IsSafe s idle (asking uid) s.manager s.alive e refl refl v (Phase-at s idle v e))
Step-IsSafe {s} {t} (run_stats uid p e f there q) v =
    rw q (record {
      phase = v.phase;
      packet = (uid, e, (Phase-at s (asking uid) v e).peers uid p there);
    })
Step-IsSafe {s} {t} (end_stats uid transport e f q) v =
    rw q (record { phase = Phase-at s (asking uid) v e; packet = tt })
Step-IsSafe {s} {t} (begin_endpoint addr e q) v =
    rw q (link-IsSafe s idle (storing addr) s.manager s.alive e refl refl v (Phase-at s idle v e))
Step-IsSafe {s} {t} (store_endpoint addr e q) v = rw q (
    link-IsSafe s (storing addr) idle (record s.manager { forward_addr = addr }) s.alive e refl refl
      v (Settled-readdressed addr (Phase-at s (storing addr) v e)))
Step-IsSafe {s} {t} (look_up short transport f there q) v =
    rw q (record { phase = v.phase; packet = there })
Step-IsSafe {s} {t} (end_use short transport f q) v = rw q (record { phase = v.phase; packet = tt })
Step-IsSafe {s} {t} (begin_forward f q) v = rw q (record { phase = v.phase; packet = tt })
Step-IsSafe {s} {t} (end_forward f q) v = rw q (record { phase = v.phase; packet = tt })

start-IsSafe : (tiebreaker : ℕ) (tap_name : Bytes) → IsSafe (start (init tiebreaker tap_name))
start-IsSafe tiebreaker tap_name = record {
  phase = record {
    consistent = init-IsConsistent tiebreaker tap_name;
    peers = λ uid p live. absurd (unfold init in cc (live, find-empty {V = Peer} uid));
  };
  packet = tt;
}

pub Reach-IsSafe :
    (tiebreaker : ℕ) (tap_name : Bytes) {s : System} → Reach (init tiebreaker tap_name) s → IsSafe s
Reach-IsSafe tiebreaker tap_name here = start-IsSafe tiebreaker tap_name
Reach-IsSafe tiebreaker tap_name (next r st) = Step-IsSafe st (Reach-IsSafe tiebreaker tap_name r)

uses-alive :
    (l : LinkPc) (now : Manager) (alive : ℕ → Bool) (k : PacketPc) (t : ℕ)
    → Phase l now alive
    → HoldsOn l now alive k
    → uses k ≡ some t
    → alive t ≡ true
uses-alive l now alive free t ph h e = absurd (cc e)
uses-alive l now alive (using short t) u ph h e =
    let same : t ≡ u = ground arith in rw⁻¹ same (short-alive l now alive short t ph h)
uses-alive l now alive (measuring t) u ph (uid, waits, lives) e =
    let same : t ≡ u = ground arith in rw⁻¹ same lives
uses-alive l now alive forwarding t ph h e = absurd (cc e)

-- However the two threads interleave from the start of a manager, the packet handling thread calls
-- no transport that has been deleted, and no entry of short_uid_map_ leads to one.
pub Reach-alive :
    (s : System) (tiebreaker : ℕ) (tap_name : Bytes)
    → Reach (init tiebreaker tap_name) s
    → ((t : ℕ) → uses s.packet ≡ some t → s.alive t ≡ true)
      × ((short : Bytes) (t : ℕ) → find short s.manager.short_uid_map ≡ some t → s.alive t ≡ true)
Reach-alive s tiebreaker tap_name r =
    let v = Reach-IsSafe tiebreaker tap_name r in
    (
      λ t. uses-alive s.link s.manager s.alive s.packet t v.phase v.packet,
      λ short t. short-alive s.link s.manager s.alive short t v.phase,
    )
