-- ===== src/Text/Order.antt =====
-- The order of `std::string::compare`.
use Prim.Native.Nat.{Ordering}
use ipop_tincan.Prelude.{suc, ◌≡◌, refl, ap, ◌≢◌, false, [], ◌∷◌, arith, Bytes, length}
use ipop_tincan.Text.{compare_bytes, is_eq}

abbrev pub flip : Ordering → Ordering
flip Ordering.lt = Ordering.gt
flip Ordering.eq = Ordering.eq
flip Ordering.gt = Ordering.lt

pub compare_bytes-flip : (a b : Bytes) → compare_bytes b a ≡ flip (compare_bytes a b)
unfolding compare_bytes
compare_bytes-flip [] [] = refl
compare_bytes-flip [] (y ∷ ys) = refl
compare_bytes-flip (x ∷ xs) [] = refl
compare_bytes-flip (x ∷ xs) (y ∷ ys) = ground (arith, compare_bytes-flip xs ys)

pub compare_bytes_refl : (a : Bytes) → compare_bytes a a ≡ Ordering.eq
unfolding compare_bytes
compare_bytes_refl [] = refl
compare_bytes_refl (x ∷ xs) = ground (arith, compare_bytes_refl xs)

pub eq_of_compare_bytes : (a b : Bytes) → compare_bytes a b ≡ Ordering.eq → a ≡ b
unfolding compare_bytes
eq_of_compare_bytes [] [] h = refl
eq_of_compare_bytes [] (y ∷ ys) h = cc
eq_of_compare_bytes (x ∷ xs) [] h = cc
eq_of_compare_bytes (x ∷ xs) (y ∷ ys) h = ground (arith, eq_of_compare_bytes xs ys)

-- Strings of different lengths are never equal.
pub compare_bytes_lengths : (a b : Bytes) → length a ≢ length b → is_eq (compare_bytes a b) ≡ false
unfolding compare_bytes
compare_bytes_lengths [] [] h = absurd (h refl)
compare_bytes_lengths [] (y ∷ ys) h = refl
compare_bytes_lengths (x ∷ xs) [] h = refl
compare_bytes_lengths (x ∷ xs) (y ∷ ys) h =
    ground (arith, compare_bytes_lengths xs ys (λ e. h (ap suc e)))
