-- ===== src/LogTime.antt =====
-- src/tincan_utils.cc: the time at the head of a line of the log. The answers of gettimeofday and
-- localtime are given.
use ipop_tincan.Prelude.{
  ◌^◌, length-append, length-drop, ℕ, zero, suc, ap, sym, ◌-◌, take_exactly, drop-append_more, ◌+◌,
  ◌<◌, ◌≤◌, ◌≡◌, ◌∙◌, refl, [], ◌∷◌, ◌++◌, arith, Bytes, take, drop, length,
}
use ipop_tincan.Text.Decimal.{padded, atoi, atoi-padded, length-padded}

-- The members of tm and timeval that are printed.
pub record LocalTime : Type 0 where
  pub tm_mon : ℕ
  pub tm_mday : ℕ
  pub tm_hour : ℕ
  pub tm_min : ℕ
  pub tm_sec : ℕ
  pub tv_usec : ℕ

-- The text from each member on.
abbrev from_usec : LocalTime → Bytes
from_usec t = padded 6 t.tv_usec ++ b']' ∷ b' ' ∷ []

abbrev from_sec : LocalTime → Bytes
from_sec t = padded 2 t.tm_sec ++ b'.' ∷ from_usec t

abbrev from_min : LocalTime → Bytes
from_min t = padded 2 t.tm_min ++ b':' ∷ from_sec t

abbrev from_hour : LocalTime → Bytes
from_hour t = padded 2 t.tm_hour ++ b':' ∷ from_min t

abbrev from_day : LocalTime → Bytes
from_day t = padded 2 t.tm_mday ++ b' ' ∷ from_hour t

-- operator << for a CurrentTime
unfoldable pub print_time : LocalTime → Bytes
print_time t = b'[' ∷ (padded 2 (t.tm_mon + 1) ++ b'/' ∷ from_day t)

-- The ranges of the C library, with a leap second.
pub record IsLocalTime (t : LocalTime) : Type 0 where
  pub month : t.tm_mon < 12
  pub day : t.tm_mday ≤ 31
  pub hour : t.tm_hour < 24
  pub minute : t.tm_min < 60
  pub second : t.tm_sec ≤ 60
  pub microsecond : t.tv_usec < 1000000

drop_none : (n : ℕ) → drop {A = ℕ} n [] ≡ []
drop_none zero = refl
drop_none (suc n) = refl

drop_more : (k m : ℕ) (s : Bytes) → drop (k + m) s ≡ drop m (drop k s)
drop_more zero m s = ap (λ (n : ℕ). drop n s) (let e : 0 + m ≡ m = omega arith in e)
drop_more (suc k) m [] = drop_none (suc k + m) ∙ sym (drop_none m)
drop_more (suc k) m (x ∷ s) =
    let e : suc k + m ≡ suc (k + m) = omega arith in
    ap (λ (n : ℕ). drop n (x ∷ s)) e ∙ drop_more k m s

-- The field behind one of the given width and its separator.
next_field :
    (k w : ℕ) (s p rest : Bytes) (c : ℕ)
    → drop k s ≡ p ++ c ∷ rest
    → length p ≡ w
    → drop (k + suc w) s ≡ rest
next_field k w s p rest c e l =
    let h = drop-append_more 1 p (c ∷ rest) in
    let j : length p + 1 ≡ suc w = omega arith in
    drop_more k (suc w) s ∙ ap (drop (suc w)) e ∙ ap (λ (n : ℕ). drop n (p ++ c ∷ rest)) (sym j) ∙ h

-- A reader that takes the members from their places in the text.
unfoldable pub read_time : Bytes → LocalTime
read_time s = record {
  tm_mon = atoi (take 2 (drop 1 s)) - 1;
  tm_mday = atoi (take 2 (drop 4 s));
  tm_hour = atoi (take 2 (drop 7 s));
  tm_min = atoi (take 2 (drop 10 s));
  tm_sec = atoi (take 2 (drop 13 s));
  tv_usec = atoi (take 6 (drop 16 s));
}

read_field :
    (k w n : ℕ) (s rest : Bytes)
    → drop k s ≡ padded w n ++ rest
    → length (padded w n) ≡ w
    → n < 2 ^ 31
    → atoi (take w (drop k s)) ≡ n
read_field k w n s rest e l h =
    ap (λ r. atoi (take w r)) e ∙ ap atoi (take_exactly w (padded w n) rest l) ∙ atoi-padded w n h

-- Where each member stands.
record Places (t : LocalTime) (s : Bytes) : Type 0 where
  month_at : drop 1 s ≡ padded 2 (t.tm_mon + 1) ++ b'/' ∷ from_day t
  day_at : drop 4 s ≡ from_day t
  hour_at : drop 7 s ≡ from_hour t
  min_at : drop 10 s ≡ from_min t
  sec_at : drop 13 s ≡ from_sec t
  usec_at : drop 16 s ≡ from_usec t

print_time-Places : (t : LocalTime) → IsLocalTime t → Places t (print_time t)
unfolding print_time
print_time-Places t h =
    let s = print_time t in
    let two : (n : ℕ) → n < 100 → length (padded 2 n) ≡ 2 = λ n k. length-padded 1 n k in
    let d1 : drop 1 s ≡ padded 2 (t.tm_mon + 1) ++ b'/' ∷ from_day t = refl in
    let d2 = next_field 1 2 s _ _ b'/' d1 (two (t.tm_mon + 1) (omega (arith, h.month))) in
    let d3 = next_field 4 2 s _ _ b' ' d2 (two t.tm_mday (omega (arith, h.day))) in
    let d4 = next_field 7 2 s _ _ b':' d3 (two t.tm_hour (omega (arith, h.hour))) in
    let d5 = next_field 10 2 s _ _ b':' d4 (two t.tm_min (omega (arith, h.minute))) in
    let d6 = next_field 13 2 s _ _ b'.' d5 (two t.tm_sec (omega (arith, h.second))) in
    record { month_at = d1; day_at = d2; hour_at = d3; min_at = d4; sec_at = d5; usec_at = d6 }

-- For a time in the ranges of the C library, a leap second included, the head of a line has 24 bytes,
-- and each member of the time can be read back from its place in it.
pub read_time-print_time :
    (t : LocalTime) → IsLocalTime t → (length (print_time t) ≡ 24) × (read_time (print_time t) ≡ t)
unfolding read_time
read_time-print_time t h =
    let s = print_time t in
    let at = print_time-Places t h in
    let two : (n : ℕ) → n < 100 → length (padded 2 n) ≡ 2 = λ n k. length-padded 1 n k in
    let six : length (padded 6 t.tv_usec) ≡ 6 = length-padded 5 t.tv_usec h.microsecond in
    let mon =
      read_field 1 2 (t.tm_mon + 1) s _ at.month_at (two _ (omega (arith, h.month)))
        (omega (arith, h.month)) in
    let less : atoi (take 2 (drop 1 s)) - 1 ≡ t.tm_mon = omega (arith, mon) in
    let day =
      read_field 4 2 t.tm_mday s _ at.day_at (two _ (omega (arith, h.day)))
        (omega (arith, h.day)) in
    let hour =
      read_field 7 2 t.tm_hour s _ at.hour_at (two _ (omega (arith, h.hour)))
        (omega (arith, h.hour)) in
    let min =
      read_field 10 2 t.tm_min s _ at.min_at (two _ (omega (arith, h.minute)))
        (omega (arith, h.minute)) in
    let sec =
      read_field 13 2 t.tm_sec s _ at.sec_at (two _ (omega (arith, h.second)))
        (omega (arith, h.second)) in
    let usec = read_field 16 6 t.tv_usec s _ at.usec_at six (omega (arith, h.microsecond)) in
    let k : length (from_usec t) ≡ 8 =
      length-append (padded 6 t.tv_usec) (b']' ∷ b' ' ∷ []) ∙ omega (arith, six) in
    (
      omega (arith, length-drop 16 s, ap length at.usec_at, k),
      λ i. record {
        tm_mon = less i;
        tm_mday = day i;
        tm_hour = hour i;
        tm_min = min i;
        tm_sec = sec i;
        tv_usec = usec i;
      },
    )
