-- ===== src/Manager/Candidates/Arrival.antt =====
-- Which candidates of one node reach the transport of another: the set that OnCandidatesReady fills,
-- as the text of OnCandidatesAllocationDone, read by CreateConnections.
use mathlib.Core.List.{Memᴰ}
use mathlib.Core.List.Memᴰ
use ipop_tincan.Prelude.{
  ◌≡◌, refl, sym, ap, ◌∙◌, ◌⊎◌, inl, inr, ◌↔◌, false, List, [], ◌∷◌, Bytes, length, ltb, Bool-cases,
}
use ipop_tincan.StringSet.{Memᴰ-insert}
use ipop_tincan.Text.Fields.{IsSplit}
use ipop_tincan.Text.Words.{words}
use ipop_tincan.Manager.{Manager, Libjingle}
use ipop_tincan.Manager.Candidates.{
  is_tap, collect_one, collect, spaced, format_candidate, read_candidate,
}
use ipop_tincan.Manager.Candidates.Reading.{candidates_of}
use ipop_tincan.Manager.Candidates.Exchange.{
  IsPlain, received, parts, split-format, read-parts, IsWord, AllWords, format-IsWord, words-spaced,
}
use ipop_tincan.Manager.Types.{Candidate}

-- The candidates that are not of the tap device, each with what `f` makes of it.
abbrev pub Found : {B : Type 0} → Manager → List Candidate → (Candidate → B) → B → Type 0
Found m cs f b = (c : Candidate) × Memᴰ c cs × (is_tap m c ≡ false) × (b ≡ f c)

module _ (lib : Libjingle) (m : Manager) (w : Bytes) where
  Memᴰ-collect_one :
      (c : Candidate) (set : List Bytes)
      → Memᴰ w (collect_one lib m c set)
        ↔ (is_tap m c ≡ false) × (w ≡ format_candidate lib c) ⊎ Memᴰ w set
  Memᴰ-collect_one c set = elim (Bool-cases (is_tap m c)) [
    | inl tap ↦ rw tap (inr, λ h. elim h [ inl x ↦ absurd (cc (x.0)) | inr k ↦ k ])
    | inr other ↦
        let (f, g) = Memᴰ-insert w (format_candidate lib c) set in
        rw other (
          λ k. elim (f k) [ inl e ↦ inl (refl, e) | inr n ↦ inr n ],
          λ h. elim h [ inl x ↦ g (inl x.1) | inr n ↦ g (inr n) ],
        )
  ]

  pub Memᴰ-collect :
      (cs : List Candidate) (set : List Bytes)
      → Memᴰ w (collect lib m cs set) ↔ Found m cs (format_candidate lib) w ⊎ Memᴰ w set
  unfolding collect
  Memᴰ-collect [] set = (inr, λ h. elim h [ inl x ↦ absurd (Memᴰ.not-nil x.1) | inr k ↦ k ])
  Memᴰ-collect (c ∷ cs) set =
      let (f, g) = Memᴰ-collect cs (collect_one lib m c set) in
      let (one, back) = Memᴰ-collect_one c set in
      (
        λ k. elim (f k) [
          | inl x ↦ let (d, n, tap, e) = x in inl (d, Memᴰ.tail n, tap, e)
          | inr n ↦ elim (one n) [ inl x ↦ inl (c, Memᴰ.head refl, x.0, x.1) | inr old ↦ inr old ]
        ],
        λ h. elim h [
          | inl x ↦
              let (d, n, tap, e) = x in
              elim (Memᴰ.cases_cons n) [
                | inl same ↦ g (inr (back (inl (rw (← same) tap, rw (← same) e))))
                | inr later ↦ g (inl (d, later, tap, e))
              ]
          | inr old ↦ g (inr (back (inr old)))
        ],
      )

AllWords-all : (ws : List Bytes) → ((w : Bytes) → Memᴰ w ws → IsWord w) → AllWords ws
AllWords-all [] h = tt
AllWords-all ([] ∷ ws) h = (h [] (Memᴰ.head refl), AllWords-all ws (λ w k. h w (Memᴰ.tail k)))
AllWords-all ((c ∷ w) ∷ ws) h =
    (h (c ∷ w) (Memᴰ.head refl), AllWords-all ws (λ v k. h v (Memᴰ.tail k)))

-- Texts of at least twelve fields are read one by one.
module _ (there : Libjingle) (d : Candidate) where
  Memᴰ-candidates_of :
      (ws : List Bytes)
      → ((w : Bytes) → Memᴰ w ws → ltb (length (there.split b':' w)) 12 ≡ false)
      → Memᴰ d (candidates_of there ws)
        ↔ ((w : Bytes) × Memᴰ w ws × (d ≡ read_candidate (there.split b':' w)))
  unfolding candidates_of
  Memᴰ-candidates_of [] h = (λ k. absurd (Memᴰ.not-nil k), λ (w, k, e). absurd (Memᴰ.not-nil k))
  Memᴰ-candidates_of (w ∷ ws) h =
      let (f, g) = Memᴰ-candidates_of ws (λ v k. h v (Memᴰ.tail k)) in
      rw (h w (Memᴰ.head refl)) (
        λ k. elim (Memᴰ.cases_cons k) [
          | inl e ↦ (w, Memᴰ.head refl, e)
          | inr n ↦ let (v, i, e) = f n in (v, Memᴰ.tail i, e)
        ],
        λ (v, k, e). elim (Memᴰ.cases_cons k) [
          | inl same ↦ Memᴰ.head (e ∙ ap (λ x. read_candidate (there.split b':' x)) same)
          | inr n ↦ Memᴰ.tail (g (v, n, e))
        ],
      )

module _ (lib there : Libjingle) (law : IsSplit there.split) (m : Manager) (cs : List Candidate)
    (plain : (c : Candidate) → Memᴰ c cs → is_tap m c ≡ false → IsPlain lib c) where
  source : (w : Bytes) → Memᴰ w (collect lib m cs []) → Found m cs (format_candidate lib) w
  source w k = elim ((Memᴰ-collect lib m w cs []).0 k) [
    | inl x ↦ x
    | inr none ↦ absurd (Memᴰ.not-nil none)
  ]

  source-IsWord : (w : Bytes) → Memᴰ w (collect lib m cs []) → IsWord w
  source-IsWord w k =
      let (c, n, tap, e) = source w k in rw e (format-IsWord lib c (plain c n tap).solid)

  source-split :
      (w : Bytes) (c : Candidate)
      → Memᴰ c cs
      → is_tap m c ≡ false
      → w ≡ format_candidate lib c
      → there.split b':' w ≡ parts lib c
  source-split w c n tap e = rw e (split-format lib there law c (plain c n tap))

  source-full :
      (w : Bytes) → Memᴰ w (collect lib m cs []) → ltb (length (there.split b':' w)) 12 ≡ false
  source-full w k = let (c, n, tap, e) = source w k in rw (source-split w c n tap e) refl

  -- The candidates that CreateConnections reads in the text of the set are those that were found,
  -- but for the ones of the tap device, each as a peer has it.
  pub Memᴰ-arrived :
      (d : Candidate)
      → Memᴰ d (candidates_of there (words (spaced (collect lib m cs []))))
        ↔ Found m cs (received lib) d
  Memᴰ-arrived d =
      let ws = collect lib m cs [] in
      let (f, g) = Memᴰ-candidates_of there d ws source-full in
      rw (words-spaced ws (AllWords-all ws source-IsWord)) (
        λ k.
            let (w, i, e) = f k in
            let (c, n, tap, same) = source w i in
            (
              c,
              n,
              tap,
              e
                  ∙ ap read_candidate (source-split w c n tap same)
                  ∙ read-parts lib there law c (plain c n tap),
            ),
        λ (c, n, tap, e).
            let w = format_candidate lib c in
            g (
              w,
              (Memᴰ-collect lib m w cs []).1 (inl (c, n, tap, refl)),
              e
                  ∙ sym (
                      ap read_candidate (source-split w c n tap refl)
                      ∙ read-parts lib there law c (plain c n tap)),
            ),
      )
