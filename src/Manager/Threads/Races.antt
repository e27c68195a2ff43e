-- ===== src/Manager/Threads/Races.antt =====
-- What the packet handling thread has read of TinCanConnectionManager while the other thread goes on.
use mathlib.Core.Path.{subst}
use ipop_tincan.Prelude.{ℕ, ◌≡◌, refl, some, Bytes, nat_eq, bytes_eq}
use ipop_tincan.Map.{find}
use ipop_tincan.Manager.{Manager, init, set_forward_addr}
use ipop_tincan.Manager.Types.{Address}
use ipop_tincan.Manager.Threads.{
  PacketPc, System, idle, asking, storing, using, measuring, forwarding, Step, begin_endpoint,
  store_endpoint, begin_forward, Reach, start, here, next,
}
use ipop_tincan.Manager.Threads.Phases.{HoldsOn}
use ipop_tincan.Manager.Threads.Safety.{Reach-IsSafe}

-- From the start, the link setup thread goes to set_forward_addr and the packet handling thread to
-- HandleQueueSignal_w, and the link setup thread is the first to go on.
set_forward_addr-race :
    (m : Manager) (addr : Address)
    → (t u : System) × Reach m t
      × Step t u
      × (t.packet ≡ forwarding)
      × (u.packet ≡ forwarding)
      × (u.manager.forward_addr ≡ addr)
set_forward_addr-race m addr =
    let s = start m in
    let t = record s { link = storing addr; packet = forwarding } in
    (
      t,
      record t { link = idle; manager = set_forward_addr addr m },
      next (next here (begin_endpoint addr refl refl)) (begin_forward refl refl),
      store_endpoint addr refl refl,
      refl,
      refl,
      refl,
    )

HoldsOn-at :
    (s : System) (k : PacketPc)
    → HoldsOn s.link s.manager s.alive s.packet
    → s.packet ≡ k
    → HoldsOn s.link s.manager s.alive k
HoldsOn-at s k h e = subst (HoldsOn s.link s.manager s.alive) e h

pub Reach-reads :
    (s : System) (tiebreaker : ℕ) (tap_name : Bytes) (addr : Address)
    → Reach (init tiebreaker tap_name) s
    → ((short : Bytes) (t : ℕ)
        → s.packet ≡ using short t
        → find short s.manager.short_uid_map ≡ some t)
      × ((t : ℕ) → s.packet ≡ measuring t → (uid : Bytes) × (s.link ≡ asking uid))
      × (before after : System) × Reach (init tiebreaker tap_name) before
      × Step before after
      × (before.packet ≡ forwarding)
      × (after.packet ≡ forwarding)
      × (after.manager.forward_addr ≡ addr)
Reach-reads s tiebreaker tap_name addr r =
    let held = (Reach-IsSafe tiebreaker tap_name r).packet in
    let (before, after, reached, step, reads, still, now) =
      set_forward_addr-race (init tiebreaker tap_name) addr in
    (
      λ short t e. HoldsOn-at s (using short t) held e,
      λ t e. let (uid, waits, lives) = HoldsOn-at s (measuring t) held e in (uid, waits),
      before,
      after,
      reached,
      step,
      reads,
      still,
      now,
    )
