-- ===== src/Manager/Links/Removal.antt =====
-- DestroyTransport and the three tables of links.
use mathlib.Core.Path.{subst}
use ipop_tincan.Prelude.{
  ℕ, ◌≡◌, refl, sym, ◌∙◌, ◌≢◌, inl, inr, true, false, none, some, [], ◌∷◌, arith, Bytes, nat_eq,
  bytes_eq, ◌==◌, Bool-cases, Option-cases, if◌then◌else◌,
}
use ipop_tincan.Map.{find, erase, find-erase, find-erase_self, find-erase_ne, find-erase_inv}
use ipop_tincan.Manager.{Manager, short_uid}
use ipop_tincan.Manager.Types.{Peer, delete_transport}
use ipop_tincan.Manager.Links.{remove_link, delete_transport_map, destroy_transport}
use ipop_tincan.Manager.Links.Safety.{IsConsistent, transport-injective}

-- Erasing what is not there changes no look-up, so the test of DeleteTransportMap_w shows only in
-- the log.
pub find-delete_transport_map :
    (s j : Bytes) (m : Manager)
    → find j (delete_transport_map s m).short_uid_map
      ≡ (if s == j then none else find j m.short_uid_map)
unfolding delete_transport_map
find-delete_transport_map s j m =
    ground (arith, find-erase s j m.short_uid_map, bytes_eq.same_iff s j)

pub delete_transport_map-inv :
    (s j : Bytes) {t : ℕ} (m : Manager)
    → find j (delete_transport_map s m).short_uid_map ≡ some t
    → (s ≢ j) × (find j m.short_uid_map ≡ some t)
delete_transport_map-inv s j m h = elim (Bool-cases (s == j)) [
  | inl hit ↦ absurd (ground (arith, find-delete_transport_map s j m))
  | inr miss ↦
      (λ p. cc (miss, (bytes_eq.same_iff s j).1 p), ground (arith, find-delete_transport_map s j m))
]

pub uid_map-delete : (s : Bytes) (m : Manager) → (delete_transport_map s m).uid_map ≡ m.uid_map
unfolding delete_transport_map
uid_map-delete s m = ground arith

transport_map-delete :
    (s : Bytes) (m : Manager) → (delete_transport_map s m).transport_map ≡ m.transport_map
unfolding delete_transport_map
transport_map-delete s m = ground arith

pub uid_map-remove_link :
    (uid : Bytes) (p : Peer) (m : Manager) → (remove_link uid p m).uid_map ≡ erase uid m.uid_map
unfolding remove_link
uid_map-remove_link uid p m = rw uid_map-delete refl

pub transport_map-remove_link :
    (uid : Bytes) (p : Peer) (m : Manager)
    → (remove_link uid p m).transport_map ≡ erase p.transport m.transport_map
unfolding remove_link
transport_map-remove_link uid p m = rw transport_map-delete refl

pub short_uid_map-remove_link :
    (uid : Bytes) (p : Peer) (m : Manager)
    → (remove_link uid p m).short_uid_map ≡ (delete_transport_map (short_uid uid) m).short_uid_map
unfolding remove_link
short_uid_map-remove_link uid p m = refl

module _ (m : Manager) (c : IsConsistent m) (uid : Bytes) (p : Peer)
    (live : find uid m.uid_map ≡ some p) where
  remove-registered :
      (u : Bytes) (q : Peer)
      → find u (erase uid m.uid_map) ≡ some q
      → find q.transport (erase p.transport m.transport_map) ≡ some u
  remove-registered u q h =
      let (ne, f) = find-erase_inv uid u m.uid_map h in
      find-erase_ne p.transport q.transport m.transport_map
        (λ e. ne (transport-injective uid u p q c live f e))
      ∙ c.registered u q f

  remove-owned :
      (t : ℕ) (u : Bytes)
      → find t (erase p.transport m.transport_map) ≡ some u
      → (q : Peer) × (find u (erase uid m.uid_map) ≡ some q) × (q.transport ≡ t)
  remove-owned t u h =
      let (ne, f) = find-erase_inv p.transport t m.transport_map h in
      let (q, g, k) = c.owned t u f in
      (q, find-erase_ne uid u m.uid_map (λ e. ne (cc (live, g, k, e))) ∙ g, k)

  remove-short_owned :
      (s : Bytes) (t : ℕ)
      → find s (remove_link uid p m).short_uid_map ≡ some t
      → (short_uid uid ≢ s)
        × (u : Bytes) × (q : Peer) × (find u (erase uid m.uid_map) ≡ some q)
        × (short_uid u ≡ s)
        × (q.transport ≡ t)
  remove-short_owned s t h =
      let (ne, f) =
        delete_transport_map-inv (short_uid uid) s m (rw short_uid_map-remove_link at h) in
      let (u, q, g, k, l) = c.short_owned s t f in
      (ne, u, q, find-erase_ne uid u m.uid_map (λ e. ne (cc (e, k))) ∙ g, k, l)

  pub remove_link-IsConsistent : IsConsistent (remove_link uid p m)
  remove_link-IsConsistent = record {
    keyed = λ u q h. c.keyed u q (find-erase_inv uid u m.uid_map (rw uid_map-remove_link at h)).1;
    registered =
        λ u q h. rw transport_map-remove_link (remove-registered u q (rw uid_map-remove_link at h));
    owned = λ t u h. rw uid_map-remove_link (remove-owned t u (rw transport_map-remove_link at h));
    short_owned = λ s t h.
        rw uid_map-remove_link
          (let (ne, u, q, g, k, l) = remove-short_owned s t h in (u, q, g, k, l));
  }

  -- No table leads to the transport of the link any more.
  pub remove_link-forgets :
      (find uid (remove_link uid p m).uid_map ≡ none)
      × (find p.transport (remove_link uid p m).transport_map ≡ none)
      × ((s : Bytes) → find s (remove_link uid p m).short_uid_map ≢ some p.transport)
  remove_link-forgets = (
    rw uid_map-remove_link (find-erase_self uid m.uid_map),
    rw transport_map-remove_link (find-erase_self p.transport m.transport_map),
    λ s h.
        let (ne, u, q, g, k, l) = remove-short_owned s p.transport h in
        let (away, f) = find-erase_inv uid u m.uid_map g in
        away (transport-injective uid u p q c live f (sym l)),
  )

pub destroy_transport-found :
    (m : Manager) (uid : Bytes) (p : Peer)
    → find uid m.uid_map ≡ some p
    → destroy_transport m uid ≡ (remove_link uid p m, true, delete_transport p.transport ∷ [])
unfolding destroy_transport
destroy_transport-found m uid p live = ground arith

pub destroy_transport-missing :
    (m : Manager) (uid : Bytes)
    → find uid m.uid_map ≡ none
    → destroy_transport m uid ≡ (m, false, [])
unfolding destroy_transport
destroy_transport-missing m uid gone = ground arith

abbrev pub Forgets : Manager → Bytes → ℕ → Type 0
Forgets m uid t =
    (find uid m.uid_map ≡ none)
    × (find t m.transport_map ≡ none)
    × ((s : Bytes) → find s m.short_uid_map ≢ some t)

-- If DestroyTransport destroys a transport, then in the state that it leaves no table leads to that
-- transport, the short table of the packet thread included, and the peer's id has no entry.
pub destroy_transport-Forgets :
    (m : Manager) (uid : Bytes) (t : ℕ)
    → IsConsistent m
    → (destroy_transport m uid).2 ≡ delete_transport t ∷ []
    → Forgets (destroy_transport m uid).0 uid t
destroy_transport-Forgets m uid t c h = elim (Option-cases (find uid m.uid_map)) [
  | inl gone ↦ absurd (cc (h, destroy_transport-missing m uid gone))
  | inr (p, live) ↦ rw (destroy_transport-found m uid p live) (
      subst (Forgets (remove_link uid p m) uid) (cc (h, destroy_transport-found m uid p live))
        (remove_link-forgets m c uid p live))
]

-- DestroyTransport keeps the tables consistent, whether it finds the peer or not.
pub destroy_transport-IsConsistent :
    (m : Manager) (uid : Bytes) → IsConsistent m → IsConsistent (destroy_transport m uid).0
destroy_transport-IsConsistent m uid c = elim (Option-cases (find uid m.uid_map)) [
  | inl gone ↦ rw (destroy_transport-missing m uid gone) c
  | inr (p, live) ↦
      rw (destroy_transport-found m uid p live) (remove_link-IsConsistent m c uid p live)
]
