-- ===== src/Text/Decimal.antt =====
-- Numbers in text: `ostream << n` for an unsigned n, and `atoi` as glibc has it on a 64-bit machine,
-- (int) strtol(s). An int is its 32-bit pattern.
use ipop_tincan.Prelude.{
  ℕ, zero, suc, ◌+◌, ◌-◌, ◌*◌, ◌/◌, ◌%◌, ◌^◌, ◌≤◌, ◌<◌, ◌≡◌, ◌∙◌, Bool, true, false, ◌&&◌, ◌||◌, [],
  ◌∷◌, ◌++◌, arith, Bytes, ltb, leb, nat_beq, if◌then◌else◌, length, replicate, length-append,
}
use Prim.Native.Nat.{min}
use native.Mathlib.Decide.{dec_lt}

decimal_fuel : ℕ → ℕ → Bytes
decimal_fuel zero n = []
decimal_fuel (suc f) n =
    let rest = decimal_fuel f (n / 10) in
    if ltb n 10 then (48 + n) ∷ [] else rest ++ (48 + n % 10) ∷ []

-- Each round divides by ten, so n + 1 rounds are enough.
unfoldable pub decimal : ℕ → Bytes
unfolding decimal_fuel
decimal n = decimal_fuel (suc n) n

abbrev pub is_digit : ℕ → Bool
is_digit c = leb 48 c && leb c 57

-- isspace in the C locale
abbrev pub is_space : ℕ → Bool
is_space c = nat_beq c 32 || leb 9 c && leb c 13

digits : ℕ → Bytes → ℕ
digits n [] = n
digits n (c ∷ s) = let rest = digits (n * 10 + (c - 48)) s in if is_digit c then rest else n

-- strtol keeps to the range of a long, and the conversion to int keeps 32 bits.
signed : Bool → ℕ → ℕ
signed false n = min n (2 ^ 63 - 1) % 2 ^ 32
signed true n = (2 ^ 63 - min n (2 ^ 63)) % 2 ^ 32

after_sign : Bytes → ℕ
unfolding signed digits
after_sign [] = 0
after_sign (c ∷ s) =
    if nat_beq c b'-'
    then signed true (digits 0 s)
    else if nat_beq c b'+'
    then signed false (digits 0 s)
    else signed false (digits 0 (c ∷ s))

unfoldable pub atoi : Bytes → ℕ
unfolding after_sign
atoi [] = 0
atoi (c ∷ s) = let rest = atoi s in if is_space c then rest else after_sign (c ∷ s)

abbrev pub AllDigits : Bytes → Type 0
AllDigits [] = Unit {0}
AllDigits (c ∷ s) = (48 ≤ c) × (c ≤ 57) × AllDigits s

AllDigits-append : (s t : Bytes) → AllDigits s → AllDigits t → AllDigits (s ++ t)
AllDigits-append [] t h k = k
AllDigits-append (c ∷ s) t h k = (h.0, h.1, AllDigits-append s t h.2 k)

decimal_fuel-small : (f n : ℕ) → n < 10 → decimal_fuel (suc f) n ≡ (48 + n) ∷ []
unfolding decimal_fuel
decimal_fuel-small f n h = ground arith

decimal_fuel-large :
    (f n : ℕ) → 10 ≤ n → decimal_fuel (suc f) n ≡ decimal_fuel f (n / 10) ++ (48 + n % 10) ∷ []
unfolding decimal_fuel
decimal_fuel-large f n h = ground arith

decimal_fuel-AllDigits : (f n : ℕ) → AllDigits (decimal_fuel f n)
decimal_fuel-AllDigits zero n = unfold decimal_fuel in tt
decimal_fuel-AllDigits (suc f) n = elim (dec_lt n 10) [
  | yes h ↦ rw (decimal_fuel-small f n h) (omega arith, omega arith, tt)
  | no h ↦ rw (decimal_fuel-large f n (omega arith)) (
      AllDigits-append (decimal_fuel f (n / 10)) ((48 + n % 10) ∷ [])
        (decimal_fuel-AllDigits f (n / 10)) (omega arith, omega arith, tt))
]

pub decimal-AllDigits : (n : ℕ) → AllDigits (decimal n)
unfolding decimal
decimal-AllDigits n = decimal_fuel-AllDigits (suc n) n

-- Digits before more digits.
digits-append :
    (n : ℕ) (s : Bytes) (c : ℕ)
    → AllDigits s
    → 48 ≤ c
    → c ≤ 57
    → digits n (s ++ c ∷ []) ≡ digits n s * 10 + (c - 48)
unfolding digits
digits-append n [] c h lo hi = ground arith
digits-append n (d ∷ s) c h lo hi = ground (arith, digits-append (n * 10 + (d - 48)) s c h.2)

digits-decimal_fuel : (f n : ℕ) → n < f → digits 0 (decimal_fuel f n) ≡ n
digits-decimal_fuel zero n h = elim h [ ]
digits-decimal_fuel (suc f) n h = elim (dec_lt n 10) [
  | yes k ↦ rw (decimal_fuel-small f n k) (unfold digits in ground arith)
  | no k ↦ rw (decimal_fuel-large f n (omega arith)) (
      digits-append 0 (decimal_fuel f (n / 10)) (48 + n % 10) (decimal_fuel-AllDigits f (n / 10))
        (omega arith) (omega arith)
      ∙ omega (arith, digits-decimal_fuel f (n / 10) (omega arith)))
]

after_sign-AllDigits : (s : Bytes) → AllDigits s → digits 0 s < 2 ^ 31 → atoi s ≡ digits 0 s
unfolding atoi
after_sign-AllDigits [] h k = ground arith
after_sign-AllDigits (c ∷ s) h k = ground arith

-- A number below 2^31 comes back from its decimal text.
pub atoi-decimal : (n : ℕ) → n < 2 ^ 31 → atoi (decimal n) ≡ n
unfolding decimal
atoi-decimal n h =
    let e = digits-decimal_fuel (suc n) n (omega arith) in
    after_sign-AllDigits (decimal_fuel (suc n) n) (decimal_fuel-AllDigits (suc n) n) (rw e h) ∙ e

-- setfill('0') << setw(width) << n
unfoldable pub padded : ℕ → ℕ → Bytes
padded width n = let s = decimal n in replicate (width - length s) b'0' ++ s

abbrev pub power_of_ten : ℕ → ℕ
power_of_ten zero = 1
power_of_ten (suc w) = 10 * power_of_ten w

length-decimal_fuel : (f n w : ℕ) → n < power_of_ten (suc w) → length (decimal_fuel f n) ≤ suc w
length-decimal_fuel zero n w h = unfold decimal_fuel in omega arith
length-decimal_fuel (suc f) n zero h = rw (decimal_fuel-small f n (omega arith)) (omega arith)
length-decimal_fuel (suc f) n (suc w) h = elim (dec_lt n 10) [
  | yes k ↦ rw (decimal_fuel-small f n k) (omega arith)
  | no k ↦ rw (decimal_fuel-large f n (omega arith)) (
      let e = length-append (decimal_fuel f (n / 10)) ((48 + n % 10) ∷ []) in
      let l = length-decimal_fuel f (n / 10) w (omega arith) in omega arith)
]

length-zeros : (k : ℕ) → length {A = ℕ} (replicate k b'0') ≡ k
length-zeros zero = omega arith
length-zeros (suc k) = omega (arith, length-zeros k)

-- A number that fits has exactly the width.
pub length-padded : (w n : ℕ) → n < power_of_ten (suc w) → length (padded (suc w) n) ≡ suc w
unfolding padded decimal
length-padded w n h =
    let l = length-decimal_fuel (suc n) n w h in
    let k = length-zeros (suc w - length (decimal_fuel (suc n) n)) in
    length-append (replicate (suc w - length (decimal_fuel (suc n) n)) b'0')
      (decimal_fuel (suc n) n)
    ∙ omega arith

zeros-AllDigits : (k : ℕ) (s : Bytes) → AllDigits s → AllDigits (replicate k b'0' ++ s)
zeros-AllDigits zero s h = h
zeros-AllDigits (suc k) s h = (omega arith, omega arith, zeros-AllDigits k s h)

digits-zeros : (k : ℕ) (s : Bytes) → digits 0 (replicate k b'0' ++ s) ≡ digits 0 s
unfolding digits
digits-zeros zero s = omega arith
digits-zeros (suc k) s = ground (arith, digits-zeros k s)

pub atoi-padded : (width n : ℕ) → n < 2 ^ 31 → atoi (padded width n) ≡ n
unfolding padded decimal
atoi-padded width n h =
    let s = decimal_fuel (suc n) n in
    let k = width - length s in
    let e = digits-zeros k s ∙ digits-decimal_fuel (suc n) n (omega arith) in
    after_sign-AllDigits (replicate k b'0' ++ s)
      (zeros-AllDigits k s (decimal_fuel-AllDigits (suc n) n)) (rw e h)
    ∙ e
