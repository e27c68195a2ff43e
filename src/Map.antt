-- ===== src/Map.antt =====
-- `std::map` where the program only looks up, assigns and erases: the function that looks
-- up, behind its laws. `find` is `find` and `operator[]` on a key that is there.
use ipop_tincan.Prelude.{
  Bool, true, false, ◌≡◌, refl, ◌≢◌, ◌⊎◌, inl, inr, Bool-cases, Option, none, some, arith, Key,
  ◌==◌, ==_refl, if◌then◌else◌,
}

-- The value under each key that is there.
pub record Map {ℓ κ} (K : Type ℓ) (V : Type κ) : Type (ℓ ⊔ κ) where
  value_of : K → Option V

abbrev pub is_some {ℓ} : {A : Type ℓ} → Option A → Bool
is_some none = false
is_some (some a) = true

module _ {ℓ κ} {K : Type ℓ} ⦃key : Key K⦄ {V : Type κ} where
  unfoldable pub empty : Map K V
  empty = record { value_of = λ j. none }

  unfoldable pub find : K → Map K V → Option V
  find k m = m.value_of k

  -- m[k] = v
  unfoldable pub insert : K → V → Map K V → Map K V
  insert k v m = record { value_of = λ j. if k == j then some v else m.value_of j }

  unfoldable pub erase : K → Map K V → Map K V
  erase k m = record { value_of = λ j. if k == j then none else m.value_of j }

  -- m.find(k) != m.end()
  abbrev pub has : K → Map K V → Bool
  has k m = is_some (find k m)

  pub find-insert :
      (k j : K) (v : V) (m : Map K V)
      → find j (insert k v m) ≡ (if k == j then some v else find j m)
  unfolding find insert
  find-insert k j v m = refl

  pub find-erase :
      (k j : K) (m : Map K V) → find j (erase k m) ≡ (if k == j then none else find j m)
  unfolding find erase
  find-erase k j m = refl

  pub find-empty : (k : K) → find k empty ≡ none
  unfolding find empty
  find-empty k = refl

  pub find-insert_self : (k : K) (v : V) (m : Map K V) → find k (insert k v m) ≡ some v
  find-insert_self k v m = ground (arith, find-insert k k v m, ==_refl k)

  pub find-erase_self : (k : K) (m : Map K V) → find k (erase k m) ≡ none
  find-erase_self k m = ground (arith, find-erase k k m, ==_refl k)

  -- A new key hides no other.
  pub find-insert_keep :
      (k j : K) (v : V) {w : V} (m : Map K V)
      → find k m ≡ none
      → find j m ≡ some w
      → find j (insert k v m) ≡ some w
  find-insert_keep k j v m new h = ground (arith, find-insert k j v m, key.same_iff k j)

  pub find-insert_inv :
      (k j : K) (v : V) {w : V} (m : Map K V)
      → find j (insert k v m) ≡ some w
      → ((k ≡ j) × (v ≡ w)) ⊎ ((k ≢ j) × (find j m ≡ some w))
  find-insert_inv k j v m h = elim (Bool-cases (k == j)) [
    | inl hit ↦ inl ((key.same_iff k j).0 hit, ground (arith, find-insert k j v m))
    | inr miss ↦ inr (λ p. cc (miss, (key.same_iff k j).1 p), ground (arith, find-insert k j v m))
  ]

  pub find-insert_ne : (k j : K) (v : V) (m : Map K V) → k ≢ j → find j (insert k v m) ≡ find j m
  find-insert_ne k j v m h = ground (arith, find-insert k j v m, key.same_iff k j)

  pub find-erase_ne : (k j : K) (m : Map K V) → k ≢ j → find j (erase k m) ≡ find j m
  find-erase_ne k j m h = ground (arith, find-erase k j m, key.same_iff k j)

  pub find-erase_inv :
      (k j : K) {w : V} (m : Map K V) → find j (erase k m) ≡ some w → (k ≢ j) × (find j m ≡ some w)
  find-erase_inv k j m h = elim (Bool-cases (k == j)) [
    | inl hit ↦ absurd (ground (arith, find-erase k j m))
    | inr miss ↦ (λ p. cc (miss, (key.same_iff k j).1 p), ground (arith, find-erase k j m))
  ]

pub ruleset map_laws = (find-empty, find-insert, find-erase)
