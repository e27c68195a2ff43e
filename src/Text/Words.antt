-- ===== src/Text/Words.antt =====
-- `istringstream >> word`: words are what stands between white space.
use ipop_tincan.Prelude.{
  ℕ, suc, ◌≤◌, ◌<◌, ◌≡◌, refl, sym, ap, ◌∙◌, true, false, List, [], ◌∷◌, ◌++◌, arith, Bytes, length,
  Bool-cases, ◌⊎◌, inl, inr, if◌then◌else◌,
}
use ipop_tincan.Text.Decimal.{is_space}

unfoldable pub skip_space : Bytes → Bytes
skip_space [] = []
skip_space (c ∷ s) = let rest = skip_space s in if is_space c then rest else c ∷ s

-- The word at the front, and what follows it.
unfoldable pub take_word : Bytes → Bytes × Bytes
take_word [] = ([], [])
take_word (c ∷ s) = let (w, rest) = take_word s in if is_space c then ([], c ∷ s) else (c ∷ w, rest)

-- iss >> word; the word is empty exactly if the extraction fails.
unfoldable pub extract : Bytes → Bytes × Bytes
unfolding skip_space take_word
extract s = take_word (skip_space s)

-- A character in front of text whose words are known.
abbrev pub glue : ℕ → Bytes → List Bytes → List Bytes
glue c [] ws = (c ∷ []) ∷ ws
glue c (d ∷ s) [] = (c ∷ []) ∷ []
glue c (d ∷ s) (w ∷ ws) = if is_space d then (c ∷ []) ∷ w ∷ ws else (c ∷ w) ∷ ws

-- All words at once.
unfoldable pub words : Bytes → List Bytes
words [] = []
words (c ∷ s) = let rest = words s in if is_space c then rest else glue c s rest

-- No white space.
abbrev pub Solid : Bytes → Type 0
Solid [] = Unit {0}
Solid (c ∷ s) = (is_space c ≡ false) × Solid s

pub words-skip_space : (s : Bytes) → words (skip_space s) ≡ words s
unfolding words skip_space
words-skip_space [] = refl
words-skip_space (c ∷ s) = ground (arith, words-skip_space s)

-- A word in front of nothing or of white space is the first word.
abbrev pub Ends : Bytes → Type 0
Ends [] = Unit {0}
Ends (c ∷ s) = is_space c ≡ true

pub words-append :
    (c : ℕ) (w rest : Bytes)
    → Solid (c ∷ w)
    → Ends rest
    → words ((c ∷ w) ++ rest) ≡ (c ∷ w) ∷ words rest
unfolding words
words-append c [] [] h e = ground arith
words-append c [] (d ∷ rest) h e = ground arith
words-append c (d ∷ w) rest h e = ground (arith, words-append d w rest h.1 e)

pub take_word-Solid : (s : Bytes) → Solid (take_word s).0
unfolding take_word
take_word-Solid [] = tt
take_word-Solid (c ∷ s) = ground (arith, take_word-Solid s)

pub take_word-Ends : (s : Bytes) → Ends (take_word s).1
unfolding take_word
take_word-Ends [] = tt
take_word-Ends (c ∷ s) = ground (arith, take_word-Ends s)

pub take_word-append : (s : Bytes) → (take_word s).0 ++ (take_word s).1 ≡ s
unfolding take_word
take_word-append [] = refl
take_word-append (c ∷ s) = ground (arith, take_word-append s)

pub skip_space-cases :
    (s : Bytes)
    → (skip_space s ≡ [])
      ⊎ ((c : ℕ) × (t : Bytes) × (skip_space s ≡ c ∷ t)
          × (is_space c ≡ false)
          × (suc (length t) ≤ length s))
unfolding skip_space
skip_space-cases [] = inl refl
skip_space-cases (c ∷ s) = elim (Bool-cases (is_space c)) [
  | inr word ↦ inr (c, s, rw word, word, omega arith)
  | inl space ↦ rw space (elim (skip_space-cases s) [
    | inl e ↦ inl e
    | inr (d, t, e, k, h) ↦ inr (d, t, e, k, omega arith)
  ])
]

-- What one extraction does to the words: it fails on none, and takes the first otherwise.
abbrev pub Extracts : Bytes → Type 0
Extracts s =
    (((extract s).0 ≡ []) × (words s ≡ []))
    ⊎ ((c : ℕ) × (w : Bytes) × ((extract s).0 ≡ c ∷ w)
        × (words s ≡ (c ∷ w) ∷ words (extract s).1)
        × (length (extract s).1 < length s))

words-word :
    (c : ℕ) (t : Bytes)
    → is_space c ≡ false
    → words (c ∷ t) ≡ (c ∷ (take_word t).0) ∷ words (take_word t).1
words-word c t h =
    ap (λ (x : Bytes). words (c ∷ x)) (sym (take_word-append t))
    ∙ words-append c (take_word t).0 (take_word t).1 (h, take_word-Solid t) (take_word-Ends t)

length-take_word : (s : Bytes) → length (take_word s).1 ≤ length s
unfolding take_word
length-take_word [] = omega arith
length-take_word (c ∷ s) = ground (arith, length-take_word s)

pub extract-words : (s : Bytes) → Extracts s
unfolding extract
extract-words s = elim (skip_space-cases s) [
  | inl e ↦ inl (rw e refl, sym (words-skip_space s) ∙ rw e (unfold words in refl))
  | inr (c, t, e, k, h) ↦
      let first : take_word (skip_space s) ≡ (c ∷ (take_word t).0, (take_word t).1) =
        rw e (unfold take_word in rw k) in
      inr (
        c,
        (take_word t).0,
        rw first,
        sym (words-skip_space s) ∙ ap words e ∙ words-word c t k ∙ rw first,
        rw first (omega (arith, length-take_word t, h)),
      )
]
