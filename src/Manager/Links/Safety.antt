-- ===== src/Manager/Links/Safety.antt =====
-- When uid_map_, transport_map_ and short_uid_map_ agree.
use ipop_tincan.Prelude.{ℕ, ◌≡◌, inl, inr, none, some, Bytes, nat_eq, bytes_eq}
use ipop_tincan.Map.{find, insert, find-empty, find-insert_self, find-insert_keep, find-insert_inv}
use ipop_tincan.Manager.{Manager, init, short_uid}
use ipop_tincan.Manager.Types.{Peer}
use ipop_tincan.Manager.Links.{add_link}

-- A transport of the short table is that of a live peer with that short id.
abbrev pub Owner : Manager → Bytes → ℕ → Type 0
Owner m s t =
    (uid : Bytes) × (p : Peer) × (find uid m.uid_map ≡ some p)
    × (short_uid uid ≡ s)
    × (p.transport ≡ t)

pub record IsConsistent (m : Manager) : Type 0 where
  pub keyed : (uid : Bytes) (p : Peer) → find uid m.uid_map ≡ some p → p.uid ≡ uid
  pub registered :
      (uid : Bytes) (p : Peer)
      → find uid m.uid_map ≡ some p
      → find p.transport m.transport_map ≡ some uid
  pub owned :
      (t : ℕ) (uid : Bytes)
      → find t m.transport_map ≡ some uid
      → (p : Peer) × (find uid m.uid_map ≡ some p) × (p.transport ≡ t)
  pub short_owned : (s : Bytes) (t : ℕ) → find s m.short_uid_map ≡ some t → Owner m s t

pub init-IsConsistent : (tb : ℕ) (tap : Bytes) → IsConsistent (init tb tap)
unfolding init
init-IsConsistent tb tap = record {
  keyed = λ uid p h. absurd (cc (h, find-empty {V = Peer} uid));
  registered = λ uid p h. absurd (cc (h, find-empty {V = Peer} uid));
  owned = λ t uid h. absurd (cc (h, find-empty {V = Bytes} t));
  short_owned = λ s t h. absurd (cc (h, find-empty {V = ℕ} s));
}

-- Two live peers never share a transport.
pub transport-injective :
    {m : Manager} (u v : Bytes) (p q : Peer)
    → IsConsistent m
    → find u m.uid_map ≡ some p
    → find v m.uid_map ≡ some q
    → p.transport ≡ q.transport
    → u ≡ v
transport-injective {m} u v p q c hp hq e =
    let hu = c.registered u p hp in let hv = c.registered v q hq in cc

module _ (m : Manager) (p : Peer) (c : IsConsistent m) where
  module _ (new : find p.uid m.uid_map ≡ none)
      (fresh : find p.transport m.transport_map ≡ none) where
    add-keyed :
        (uid : Bytes) (q : Peer) → find uid (insert p.uid p m.uid_map) ≡ some q → q.uid ≡ uid
    add-keyed uid q h = elim (find-insert_inv p.uid uid p m.uid_map h) [
      | inl (e, f) ↦ cc
      | inr (e, f) ↦ c.keyed uid q f
    ]

    add-registered :
        (uid : Bytes) (q : Peer)
        → find uid (insert p.uid p m.uid_map) ≡ some q
        → find q.transport (insert p.transport p.uid m.transport_map) ≡ some uid
    add-registered uid q h = elim (find-insert_inv p.uid uid p m.uid_map h) [
      | inl (e, f) ↦ cc (e, f, find-insert_self p.transport p.uid m.transport_map)
      | inr (e, f) ↦
          find-insert_keep p.transport q.transport p.uid m.transport_map fresh
            (c.registered uid q f)
    ]

    add-owned :
        (t : ℕ) (uid : Bytes)
        → find t (insert p.transport p.uid m.transport_map) ≡ some uid
        → (q : Peer) × (find uid (insert p.uid p m.uid_map) ≡ some q) × (q.transport ≡ t)
    add-owned t uid h = elim (find-insert_inv p.transport t p.uid m.transport_map h) [
      | inl (e, f) ↦ (p, cc (f, find-insert_self p.uid p m.uid_map), e)
      | inr (e, f) ↦
          let (q, g, k) = c.owned t uid f in (q, find-insert_keep p.uid uid p m.uid_map new g, k)
    ]

    add-short_owned :
        (s : Bytes) (t : ℕ)
        → find s (insert (short_uid p.uid) p.transport m.short_uid_map) ≡ some t
        → (uid : Bytes) × (q : Peer) × (find uid (insert p.uid p m.uid_map) ≡ some q)
          × (short_uid uid ≡ s)
          × (q.transport ≡ t)
    add-short_owned s t h =
        elim (find-insert_inv (short_uid p.uid) s p.transport m.short_uid_map h) [
          | inl (e, f) ↦ (p.uid, p, find-insert_self p.uid p m.uid_map, e, f)
          | inr (e, f) ↦
              let (uid, q, g, k, l) = c.short_owned s t f in
              (uid, q, find-insert_keep p.uid uid p m.uid_map new g, k, l)
        ]

    pub add_link-IsConsistent : IsConsistent (add_link p m)
    unfolding add_link
    add_link-IsConsistent = record {
      keyed = add-keyed;
      registered = add-registered;
      owned = add-owned;
      short_owned = add-short_owned;
    }
