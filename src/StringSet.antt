-- ===== src/StringSet.antt =====
-- `std::set<std::string>`: the strings in their order, each once.
use Prim.Native.Nat.{Ordering}
use mathlib.Core.List.{Memᴰ}
use mathlib.Core.List.Memᴰ
use ipop_tincan.Prelude.{Memᴰ-cons, ◌↔◌, ◌∙◌, ◌⊎◌, inl, inr, ◌≡◌, refl, List, [], ◌∷◌, arith, Bytes}
use ipop_tincan.Text.{compare_bytes}
use ipop_tincan.Text.Order.{compare_bytes-flip, eq_of_compare_bytes}

-- s.insert(x)
unfoldable pub insert : Bytes → List Bytes → List Bytes
insert x [] = x ∷ []
insert x (y ∷ ys) =
    let rest = insert x ys in
    elim (compare_bytes x y) [
      | Ordering.lt ↦ x ∷ y ∷ ys
      | Ordering.eq ↦ y ∷ ys
      | Ordering.gt ↦ y ∷ rest
    ]

abbrev pub insert_all : List Bytes → List Bytes → List Bytes
insert_all [] set = set
insert_all (x ∷ xs) set = insert_all xs (insert x set)

abbrev pub Above : Bytes → List Bytes → Type 0
Above x [] = Unit {0}
Above x (y ∷ ys) = (compare_bytes x y ≡ Ordering.lt) × Above y ys

-- Strictly increasing, so no string occurs twice.
abbrev pub IsOrdered : List Bytes → Type 0
IsOrdered [] = Unit {0}
IsOrdered (x ∷ xs) = Above x xs

Above-insert :
    (b x : Bytes) (set : List Bytes)
    → compare_bytes b x ≡ Ordering.lt
    → Above b set
    → Above b (insert x set)
unfolding insert
Above-insert b x [] h k = (h, tt)
Above-insert b x (y ∷ ys) h k = ground (arith, compare_bytes-flip x y, Above-insert y x ys)

pub insert-IsOrdered : (x : Bytes) (set : List Bytes) → IsOrdered set → IsOrdered (insert x set)
unfolding insert
insert-IsOrdered x [] h = tt
insert-IsOrdered x (y ∷ ys) h = ground (arith, compare_bytes-flip x y, Above-insert y x ys)

compare_bytes_trans :
    (a b c : Bytes)
    → compare_bytes a b ≡ Ordering.lt
    → compare_bytes b c ≡ Ordering.lt
    → compare_bytes a c ≡ Ordering.lt
unfolding compare_bytes
compare_bytes_trans [] [] c h k = absurd (cc)
compare_bytes_trans [] (y ∷ ys) [] h k = absurd (cc)
compare_bytes_trans [] (y ∷ ys) (z ∷ zs) h k = refl
compare_bytes_trans (x ∷ xs) [] c h k = absurd (cc)
compare_bytes_trans (x ∷ xs) (y ∷ ys) [] h k = absurd (cc)
compare_bytes_trans (x ∷ xs) (y ∷ ys) (z ∷ zs) h k = ground (arith, compare_bytes_trans xs ys zs)

-- The order of two insertions does not matter.
pub insert_comm :
    (a b : Bytes) (set : List Bytes) → insert a (insert b set) ≡ insert b (insert a set)
unfolding insert
insert_comm a b [] = ground (arith, compare_bytes-flip a b, eq_of_compare_bytes a b)
insert_comm a b (y ∷ ys) = ground (
  arith,
  compare_bytes-flip a b,
  compare_bytes-flip a y,
  compare_bytes-flip b y,
  eq_of_compare_bytes a b,
  eq_of_compare_bytes a y,
  eq_of_compare_bytes b y,
  compare_bytes_trans a y b,
  compare_bytes_trans b y a,
  insert_comm a b ys,
)

-- A set with x added has x and what it had before.
module _ (w x : Bytes) where
  pub Memᴰ-insert : (set : List Bytes) → Memᴰ w (insert x set) ↔ (w ≡ x) ⊎ Memᴰ w set
  unfolding insert
  Memᴰ-insert [] = Memᴰ-cons w x []
  Memᴰ-insert (y ∷ ys) = place (compare_bytes x y) refl (Memᴰ-insert ys)
    where
      place :
          (o : Ordering)
          → compare_bytes x y ≡ o
          → Memᴰ w (insert x ys) ↔ (w ≡ x) ⊎ Memᴰ w ys
          → Memᴰ w (insert x (y ∷ ys)) ↔ (w ≡ x) ⊎ Memᴰ w (y ∷ ys)
      place Ordering.lt e h = rw (insert, e) (Memᴰ-cons w x (y ∷ ys))
      place Ordering.eq e h =
          rw (insert, e)
            (
              inr,
              λ k. elim k [ inl same ↦ Memᴰ.head (same ∙ eq_of_compare_bytes x y e) | inr m ↦ m ],
            )
      place Ordering.gt e h =
          rw (insert, e)
            (
              λ m. elim (Memᴰ.cases_cons m) [
                | inl same ↦ inr (Memᴰ.head same)
                | inr k ↦ elim (h.0 k) [ inl same ↦ inl same | inr n ↦ inr (Memᴰ.tail n) ]
              ],
              λ k. elim k [
                | inl same ↦ Memᴰ.tail (h.1 (inl same))
                | inr m ↦ elim (Memᴰ.cases_cons m) [
                  | inl same ↦ Memᴰ.head same
                  | inr n ↦ Memᴰ.tail (h.1 (inr n))
                ]
              ],
            )
