-- ===== src/Manager/Links/Replacing.antt =====
-- Changes of a peer's record that leave its id and its transport, and the three tables of links.
use ipop_tincan.Prelude.{◌≡◌, refl, ◌∙◌, inl, inr, Bool-cases, some, Bytes, nat_eq, bytes_eq, arith}
use ipop_tincan.Map.{find, insert, find-insert_self, find-insert_inv, find-insert_ne}
use ipop_tincan.Manager.{Manager}
use ipop_tincan.Manager.Types.{Peer}
use ipop_tincan.Manager.Links.Safety.{IsConsistent}

-- A peer's record changes, and not its id and its transport.
module _ (m : Manager) (uid : Bytes) (p q : Peer) (c : IsConsistent m)
    (live : find uid m.uid_map ≡ some p) (same_uid : q.uid ≡ p.uid)
    (same_transport : q.transport ≡ p.transport) where
  abbrev replaced : Manager
  replaced = record m { uid_map = insert uid q m.uid_map }

  -- The old record under a key that is there after the change.
  old :
      (v : Bytes) (r : Peer)
      → find v replaced.uid_map ≡ some r
      → (r' : Peer) × (find v m.uid_map ≡ some r') × (r.uid ≡ r'.uid) × (r.transport ≡ r'.transport)
  old v r h = elim (find-insert_inv uid v q m.uid_map h) [
    | inl (e, f) ↦ (p, cc, cc, cc)
    | inr (e, f) ↦ (r, f, refl, refl)
  ]

  new :
      (v : Bytes) (r : Peer)
      → find v m.uid_map ≡ some r
      → (r' : Peer) × (find v replaced.uid_map ≡ some r') × (r'.transport ≡ r.transport)
  new v r h = elim (Bool-cases (bytes_eq.same uid v)) [
    | inl hit ↦
        let e = (bytes_eq.same_iff uid v).0 hit in
        (q, cc (e, find-insert_self uid q m.uid_map), ground (arith, e, h, live, same_transport))
    | inr miss ↦ (
      r,
      find-insert_ne uid v q m.uid_map (λ e. absurd (cc (miss, (bytes_eq.same_iff uid v).1 e))) ∙ h,
      refl,
    )
  ]

  pub replaced-IsConsistent : IsConsistent replaced
  replaced-IsConsistent = record {
    keyed = λ v r h. let (r', f, e, t) = old v r h in e ∙ c.keyed v r' f;
    registered = λ v r h. let (r', f, e, t) = old v r h in rw t (c.registered v r' f);
    owned =
        λ t v h. let (r, f, e) = c.owned t v h in let (r', f', e') = new v r f in (r', f', e' ∙ e);
    short_owned = λ s t h.
        let (v, r, f, e, g) = c.short_owned s t h in
        let (r', f', e') = new v r f in (v, r', f', e, e' ∙ g);
  }
