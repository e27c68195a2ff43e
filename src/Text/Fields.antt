-- ===== src/Text/Fields.antt =====
-- Text cut at a delimiter: what the code relies on of talk_base::split, and the fields that follow
-- from it.
use ipop_tincan.Prelude.{
  ℕ, ◌≡◌, refl, sym, ap, ◌∙◌, ◌≢◌, inl, inr, List, [], ◌∷◌, ◌++◌, append_assoc, append-nil, arith,
  Bytes, nat_beq, nat_beq_iff, Bool-cases, if◌then◌else◌,
}

-- The delimiter does not occur.
abbrev pub Free : ℕ → Bytes → Type 0
Free d [] = Unit {0}
Free d (c ∷ s) = (c ≢ d) × Free d s

pub Free-append : (d : ℕ) (s t : Bytes) → Free d s → Free d t → Free d (s ++ t)
Free-append d [] t h k = k
Free-append d (c ∷ s) t h k = (h.0, Free-append d s t h.1 k)

-- The documented behaviour of talk_base::split: one field more than there are delimiters, and
-- neighbouring delimiters give empty fields.
pub record IsSplit (split : ℕ → Bytes → List Bytes) : Type 0 where
  pub whole : (d : ℕ) (s : Bytes) → Free d s → split d s ≡ s ∷ []
  pub cut : (d : ℕ) (s rest : Bytes) → Free d s → split d (s ++ d ∷ rest) ≡ s ∷ split d rest

-- Text in front of the first field.
abbrev pub prepend : Bytes → List Bytes → List Bytes
prepend p [] = p ∷ []
prepend p (f ∷ fs) = (p ++ f) ∷ fs

unfoldable pub fields : ℕ → Bytes → List Bytes
fields d [] = [] ∷ []
fields d (c ∷ s) = let rest = fields d s in if nat_beq c d then [] ∷ rest else prepend (c ∷ []) rest

prepend-prepend : (p q : Bytes) (fs : List Bytes) → prepend p (prepend q fs) ≡ prepend (p ++ q) fs
prepend-prepend p q [] = refl
prepend-prepend p q (f ∷ fs) = ap (λ (g : Bytes). g ∷ fs) (sym (append_assoc p q f))

fields-ne-nil : (d : ℕ) (s : Bytes) → prepend [] (fields d s) ≡ fields d s
unfolding fields
fields-ne-nil d [] = refl
fields-ne-nil d (c ∷ s) = ground (arith, fields-ne-nil d s)

module _ {split : ℕ → Bytes → List Bytes} (law : IsSplit split) where
  split-prepend : (d : ℕ) (p s : Bytes) → Free d p → split d (p ++ s) ≡ prepend p (fields d s)
  unfolding fields
  split-prepend d p [] h = law.whole d (p ++ []) (Free-append d p [] h tt)
  split-prepend d p (c ∷ s) h = elim (Bool-cases (nat_beq c d)) [
    | inl hit ↦
        rw (hit, append-nil p)
          (ap (λ (x : ℕ). split d (p ++ x ∷ s)) ((nat_beq_iff c d).0 hit)
            ∙ law.cut d p s h
            ∙ ap (◌∷◌ p) (split-prepend d [] s tt ∙ fields-ne-nil d s))
    | inr miss ↦
        rw (miss, prepend-prepend p (c ∷ []) (fields d s), ← append_assoc p (c ∷ []) s)
          (split-prepend d (p ++ c ∷ []) s
            (Free-append d p (c ∷ []) h (λ e. cc (miss, (nat_beq_iff c d).1 e), tt)))
  ]

  -- So splitting is cutting into fields.
  pub split-eq-fields : (d : ℕ) (s : Bytes) → split d s ≡ fields d s
  split-eq-fields d s = split-prepend d [] s tt ∙ fields-ne-nil d s

pub fields-Free : (d : ℕ) (s : Bytes) → Free d s → fields d s ≡ s ∷ []
unfolding fields
fields-Free d [] h = refl
fields-Free d (c ∷ s) h = ground (arith, fields-Free d s h.1)

pub fields-cut : (d : ℕ) (s rest : Bytes) → Free d s → fields d (s ++ d ∷ rest) ≡ s ∷ fields d rest
unfolding fields
fields-cut d [] rest h = ground arith
fields-cut d (c ∷ s) rest h = ground (arith, fields-cut d s rest h.1)

pub fields-IsSplit : IsSplit fields
fields-IsSplit = record { whole = fields-Free; cut = fields-cut }
