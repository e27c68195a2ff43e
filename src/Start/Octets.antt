-- ===== src/Start/Octets.antt =====
-- The count in the second number of the address, which get_free_network_ip keeps as text.
use ipop_tincan.Prelude.{
  ℕ, zero, suc, ◌+◌, ◌-◌, ◌/◌, ◌%◌, ◌≤◌, ◌<◌, ◌≡◌, ◌≢◌, refl, ap, Bool, true, false, ◌&&◌, ◌||◌,
  Option, none, some, List, [], ◌∷◌, ◌++◌, Bytes, arith, leb, length, take, if◌then◌else◌,
  bytes_beq, bytes_beq_iff, get_or, Bool-cases, inl, inr,
}
use ipop_tincan.Text.Decimal.{decimal, atoi}
use ipop_tincan.Text.Fields.{Free}
use ipop_tincan.Text.CString.{c_string}
use ipop_tincan.Start.{
  Interface, cmp_size, strncmp_eq, print_pred, read_segment, lower_segment, visit, visit_all,
  write_at,
}

-- The array with "172.k." at its start, for a k of two digits.
abbrev pub array_of : ℕ → Bytes → Bytes
array_of k rest = b'1' ∷ b'7' ∷ b'2' ∷ b'.' ∷ (48 + k / 10) ∷ (48 + k % 10) ∷ b'.' ∷ rest

-- The interface's address begins with "172.k.".
abbrev pub shows : ℕ → Interface → Bool
shows k ifa = elim ifa.text [
  | none ↦ false
  | some text ↦ ifa.is_inet && strncmp_eq cmp_size (array_of k []) (text ++ 0 ∷ [])
]

-- The count after the interfaces, one by one.
unfoldable pub lowest : ℕ → List Interface → ℕ
lowest k [] = k
lowest k (ifa ∷ ifas) = lowest (if shows k ifa then k - 1 else k) ifas

strncmp_eq-append :
    (xs rest other b : Bytes)
    → strncmp_eq (length xs) (xs ++ rest) b ≡ strncmp_eq (length xs) (xs ++ other) b
unfolding strncmp_eq
strncmp_eq-append [] rest other b = refl
strncmp_eq-append (x ∷ xs) rest other [] = refl
strncmp_eq-append (x ∷ xs) rest other (y ∷ b) = rw (strncmp_eq-append xs rest other b) refl

-- A check of every value below a bound.
all_below : ℕ → (ℕ → Bool) → Bool
all_below zero p = true
all_below (suc n) p = p n && all_below n p

all_below_sound : (n : ℕ) (p : ℕ → Bool) (k : ℕ) → all_below n p ≡ true → k < n → p k ≡ true
unfolding all_below
all_below_sound zero p k h lt = absurd (omega arith)
all_below_sound (suc n) p k h lt = ground (arith, all_below_sound n p k)

-- What the segment becomes.
abbrev lowered : ℕ → Bytes
lowered k = take 2 (print_pred (read_segment (array_of k [])))

abbrev two_digits : ℕ → Bytes
two_digits k = (48 + k / 10) ∷ (48 + k % 10) ∷ []

abbrev is_lowered : ℕ → Bool
is_lowered k = leb k 10 || bytes_beq (lowered k) (two_digits (k - 1))

lowered_table : all_below 100 is_lowered ≡ true
unfolding all_below print_pred read_segment c_string atoi decimal
lowered_table = refl

lowered_lem : (k : ℕ) → 10 < k → k < 100 → lowered k ≡ two_digits (k - 1)
lowered_lem k h lt =
    let t = all_below_sound 100 is_lowered k lowered_table lt in
    ground (arith, t, bytes_beq_iff (lowered k) (two_digits (k - 1)))

lower_segment-array_of :
    (k : ℕ) (rest : Bytes)
    → 10 < k
    → k < 100
    → lower_segment (array_of k rest) ≡ array_of (k - 1) rest
unfolding lower_segment
lower_segment-array_of k rest h lt =
    ap (λ t. write_at 6 (b'.' ∷ []) (write_at 4 (t ++ 0 ∷ []) (array_of k rest)))
      (lowered_lem k h lt)

decimal_table : all_below 100 (λ k. leb k 9 || bytes_beq (decimal k) (two_digits k)) ≡ true
unfolding all_below decimal
decimal_table = refl

pub decimal-two_digits : (k : ℕ) → 10 ≤ k → k < 100 → decimal k ≡ two_digits k
decimal-two_digits k h lt =
    let t =
      all_below_sound 100 (λ j. leb j 9 || bytes_beq (decimal j) (two_digits j)) k decimal_table
        lt in
    ground (arith, t, bytes_beq_iff (decimal k) (two_digits k))

visit-array_of :
    (ifa : Interface) (k : ℕ) (rest : Bytes)
    → 10 < k
    → k < 100
    → visit ifa (array_of k rest) ≡ array_of (if shows k ifa then k - 1 else k) rest
visit-array_of ifa k rest h lt = go ifa.text refl
  where
    go :
        (o : Option Bytes)
        → ifa.text ≡ o
        → visit ifa (array_of k rest) ≡ array_of (if shows k ifa then k - 1 else k) rest
    go none e = unfold visit in ground (arith, e)
    go (some text) e =
        let same = strncmp_eq-append (array_of k []) rest [] (text ++ 0 ∷ []) in
        let lower = lower_segment-array_of k rest h lt in
        elim (Bool-cases (ifa.is_inet && strncmp_eq cmp_size (array_of k []) (text ++ 0 ∷ []))) [
          | inl hit ↦ unfold visit in ground (arith, e, same, lower, hit)
          | inr miss ↦ unfold visit in ground (arith, e, same, miss)
        ]

pub lowest_bounds :
    (k : ℕ) (ifas : List Interface) → (k ≤ lowest k ifas + length ifas) × (lowest k ifas ≤ k)
unfolding lowest
lowest_bounds k [] = omega arith
lowest_bounds k (ifa ∷ ifas) = elim (Bool-cases (shows k ifa)) [
  | inl hit ↦ rw hit (omega (arith, lowest_bounds (k - 1) ifas))
  | inr miss ↦ rw miss (omega (arith, lowest_bounds k ifas))
]

pub visit_all-array_of :
    (k : ℕ) (ifas : List Interface) (rest : Bytes)
    → 10 + length ifas ≤ k
    → k < 100
    → visit_all ifas (array_of k rest) ≡ array_of (lowest k ifas) rest
unfolding visit_all lowest
visit_all-array_of k [] rest h lt = refl
visit_all-array_of k (ifa ∷ ifas) rest h lt =
    let now = visit-array_of ifa k rest (omega arith) lt in
    elim (Bool-cases (shows k ifa)) [
      | inl hit ↦ rw (now, hit) (visit_all-array_of (k - 1) ifas rest (omega arith) (omega arith))
      | inr miss ↦ rw (now, miss) (visit_all-array_of k ifas rest (omega arith) lt)
    ]

strncmp_eq-same :
    (xs ys b : Bytes)
    → Free 0 xs
    → length ys ≡ length xs
    → strncmp_eq (length xs) xs b ≡ true
    → strncmp_eq (length xs) ys b ≡ true
    → xs ≡ ys
unfolding strncmp_eq
strncmp_eq-same [] [] b z l h k = refl
strncmp_eq-same [] (y ∷ ys) b z l h k = absurd (omega arith)
strncmp_eq-same (x ∷ xs) [] b z l h k = absurd (omega arith)
strncmp_eq-same (x ∷ xs) (y ∷ ys) [] z l h k = absurd (cc)
strncmp_eq-same (x ∷ xs) (y ∷ ys) (c ∷ b) z l h k =
    let different = z.0 in ground (arith, strncmp_eq-same xs ys b z.1 (omega arith))

pub array-Free : (k : ℕ) (rest : Bytes) → Free 0 rest → Free 0 (array_of k rest)
array-Free k rest h = (
  pos 48,
  (
    pos 54,
    (pos 49, (pos 45, ((λ z. absurd (omega arith)), ((λ z. absurd (omega arith)), (pos 45, h))))),
  ),
)
  where
    pos : (n : ℕ) → suc n ≢ 0
    pos n e = absurd (omega arith)

-- An interface shows one number at most.
pub shows_unique : (a b : ℕ) (ifa : Interface) → shows a ifa ≡ true → shows b ifa ≡ true → a ≡ b
shows_unique a b ifa h k = go ifa.text refl
  where
    go : (o : Option Bytes) → ifa.text ≡ o → a ≡ b
    go none e = absurd (ground (arith, e))
    go (some text) e =
        let same : array_of a [] ≡ array_of b [] =
          strncmp_eq-same (array_of a []) (array_of b []) (text ++ 0 ∷ []) (array-Free a [] tt) refl
            (ground (arith, e)) (ground (arith, e)) in
        let tens = ap (λ l. get_or l 4 0) same in
        let ones = ap (λ l. get_or l 5 0) same in omega (arith, tens, ones)
