-- ===== src/Table.antt =====
-- `std::map` from strings where the program also iterates: the entries in the order of their keys.
use Prim.Native.Nat.{Ordering}
use ipop_tincan.Prelude.{◌≡◌, refl, List, [], ◌∷◌, arith, Bytes, bytes_eq}
use ipop_tincan.Text.{compare_bytes}
use ipop_tincan.StringSet
use ipop_tincan.StringSet.{IsOrdered, insert-IsOrdered}

abbrev pub Table {ℓ} : Type ℓ → Type ℓ
Table V = List (Bytes × V)

module _ {ℓ} {V : Type ℓ} where
  -- t[k] = v
  unfoldable pub assign : Bytes → V → Table V → Table V
  assign k v [] = (k, v) ∷ []
  assign k v ((j, w) ∷ t) =
      let rest = assign k v t in
      elim (compare_bytes k j) [
        | Ordering.lt ↦ (k, v) ∷ (j, w) ∷ t
        | Ordering.eq ↦ (j, v) ∷ t
        | Ordering.gt ↦ (j, w) ∷ rest
      ]

  abbrev pub keys : Table V → List Bytes
  keys [] = []
  keys ((k, v) ∷ t) = k ∷ keys t

  -- The keys are those of a set of strings.
  pub keys-assign :
      (k : Bytes) (v : V) (t : Table V) → keys (assign k v t) ≡ StringSet.insert k (keys t)
  unfolding assign StringSet.insert
  keys-assign k v [] = refl
  keys-assign k v ((j, w) ∷ t) = ground (arith, keys-assign k v t)

  pub assign-IsOrdered :
      (k : Bytes) (v : V) (t : Table V) → IsOrdered (keys t) → IsOrdered (keys (assign k v t))
  assign-IsOrdered k v t h = rw (keys-assign k v t) (insert-IsOrdered k (keys t) h)
