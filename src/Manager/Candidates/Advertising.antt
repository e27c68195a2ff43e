-- ===== src/Manager/Candidates/Advertising.antt =====
-- What a node tells its peer: the candidates that libjingle found, as a set.
use mathlib.Core.List.{Perm, Permᴰ}
use mathlib.Core.Logic.{∥∥₁_elim}
use native.Mathlib.Decide.{ℕ_discrete}
use ipop_tincan.Prelude.{
  ℕ, ◌≡◌, refl, ◌∙◌, true, none, some, List, [], ◌∷◌, ◌++◌, arith, Bytes, nat_eq, bytes_eq,
  Option-cases, ◌⊎◌, inl, inr,
}
use ipop_tincan.Map.{find, has, find-insert_self}
use ipop_tincan.StringSet.{IsOrdered, insert_comm, insert-IsOrdered}
use ipop_tincan.Manager.{Manager, Libjingle, k_con_resp}
use ipop_tincan.Manager.Signals.{transport_uid}
use ipop_tincan.Manager.Candidates.{
  collect_one, format_candidate, collect, spaced, on_candidates_allocation_done,
}
use ipop_tincan.Manager.Types.{Candidate, Peer, send_to_peer}

Bytes-list-set : IsSet (List Bytes)
Bytes-list-set = hlevel ℕ_discrete

collect-swap :
    (lib : Libjingle) (m : Manager) (a b : Candidate) (cs : List Candidate) (set : List Bytes)
    → collect lib m (a ∷ b ∷ cs) set ≡ collect lib m (b ∷ a ∷ cs) set
unfolding collect
collect-swap lib m a b cs set =
    ground (arith, insert_comm (format_candidate lib a) (format_candidate lib b) set)

collect-permᴰ :
    (lib : Libjingle) (m : Manager) {cs ds : List Candidate}
    → Permᴰ cs ds
    → (set : List Bytes) → collect lib m cs set ≡ collect lib m ds set
unfolding collect
collect-permᴰ lib m Permᴰ.nil set = refl
collect-permᴰ lib m (Permᴰ.cons {a = a} {l₁ = l} e p) set =
    rw (← e) (collect-permᴰ lib m p (collect_one lib m a set))
collect-permᴰ lib m (Permᴰ.swap {a = a} {b = b} {l = l} e f) set =
    rw (← e, ← f) (collect-swap lib m a b l set)
collect-permᴰ lib m (Permᴰ.trans p q) set = collect-permᴰ lib m p set ∙ collect-permᴰ lib m q set

-- The set of advertised texts does not depend on the order in which the candidates were found.
pub collect-perm :
    (lib : Libjingle) (m : Manager) (cs ds : List Candidate) (set : List Bytes)
    → Perm cs ds
    → collect lib m cs set ≡ collect lib m ds set
collect-perm lib m cs ds set p = ∥∥₁_elim p (Bytes-list-set _ _) (λ q. collect-permᴰ lib m q set)

-- The texts are sent in increasing order and each once.
pub collect-IsOrdered :
    (lib : Libjingle) (m : Manager) (cs : List Candidate) (set : List Bytes)
    → IsOrdered set
    → IsOrdered (collect lib m cs set)
unfolding collect
collect-IsOrdered lib m [] set h = h
collect-IsOrdered lib m (c ∷ cs) set h =
    collect-IsOrdered lib m cs (collect_one lib m c set)
      (ground (arith, insert-IsOrdered (format_candidate lib c) set))

has-transport_uid : (m : Manager) (t : ℕ) → has t (transport_uid m t).1.transport_map ≡ true
unfolding transport_uid
has-transport_uid m t = ground (arith, find-insert_self t [] m.transport_map)

-- The second look-up finds what the first one found or added.
transport_uid-again :
    (m : Manager) (t : ℕ) → transport_uid (transport_uid m t).1 t ≡ transport_uid m t
unfolding transport_uid
transport_uid-again m t = ground (arith, find-insert_self t [] m.transport_map)

uid_map-transport_uid : (m : Manager) (t : ℕ) → (transport_uid m t).1.uid_map ≡ m.uid_map
unfolding transport_uid
uid_map-transport_uid m t = ground arith

pub on_candidates_allocation_done-sends :
    (m : Manager) (t : ℕ)
    → ((find (transport_uid m t).0 m.uid_map ≡ none) × (on_candidates_allocation_done m t ≡ none))
      ⊎ ((p : Peer) × (find (transport_uid m t).0 m.uid_map ≡ some p)
          × (on_candidates_allocation_done m t
              ≡ some (
                (transport_uid m t).1,
                send_to_peer p.overlay_id
                      (transport_uid m t).0
                      (m.fingerprint ++ spaced p.candidate_list)
                      k_con_resp
                    ∷ [],
              )))
unfolding on_candidates_allocation_done
on_candidates_allocation_done-sends m t =
    elim (Option-cases (find (transport_uid m t).0 m.uid_map)) [
      | inl e ↦ inl (e, ground (arith, uid_map-transport_uid m t))
      | inr (p, e) ↦ inr (
        p,
        e,
        ground (arith, uid_map-transport_uid m t, transport_uid-again m t, has-transport_uid m t),
      )
    ]
