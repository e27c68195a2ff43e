-- ===== src/Start/Free.antt =====
-- get_free_network_ip in main of src/tincan.cc: the address that the node starts with.
use mathlib.Core.Path.{subst}
use ipop_tincan.Prelude.{
  ℕ, suc, ◌-◌, ◌≤◌, ◌<◌, ◌≡◌, refl, sym, ap, ◌∙◌, Bool, true, false, some, List, [], ◌∷◌, ◌++◌,
  Bytes, arith, codes, length, replicate, Bool-cases, inl, inr,
}
use ipop_tincan.Text.Decimal.{decimal}
use ipop_tincan.Manager.{k_ipv4}
use ipop_tincan.Text.CString.{c_string}
use ipop_tincan.Text.CString.{c_string-append}
use ipop_tincan.Start.{Interface, strncmp_eq, free_ip}
use ipop_tincan.Start.Octets.{
  array_of, shows, lowest, lowest_bounds, visit_all-array_of, array-Free, shows_unique,
  decimal-two_digits,
}

c_string-zeros : (n : ℕ) → c_string (replicate (suc n) 0) ≡ some []
unfolding c_string
c_string-zeros n = refl

-- The text of the start address with another second number.
abbrev pub address : ℕ → Bytes
address k = codes "172." ++ (decimal k ++ codes ".0.100")

-- With at most twenty-one interfaces, main leaves the manager the address "172.k.0.100", where k is
-- 31 less one for each interface, in their order, whose address begins with the number that the
-- count has reached; k lies between 10 and 31.
pub free_ip-lowest :
    (ifas : List Interface)
    → length ifas ≤ 21
    → (free_ip (some ifas) k_ipv4 ≡ some (address (lowest 31 ifas)))
      × (10 ≤ lowest 31 ifas)
      × (lowest 31 ifas ≤ 31)
unfolding free_ip k_ipv4
free_ip-lowest ifas h =
    let (above, below) = lowest_bounds 31 ifas in
    let k = lowest 31 ifas in
    let counted =
      visit_all-array_of 31 ifas (codes "0.100" ++ replicate 1013 0) (omega arith) (omega arith) in
    let text = codes "0.100" in
    let ends : c_string (replicate 1013 0) ≡ some [] = c_string-zeros 1012 in
    let read =
      c_string-append (array_of k text) [] (replicate 1013 0) (array-Free k text (omega arith))
        ends in
    let number = decimal-two_digits k (omega arith) (omega arith) in
    (
      ap c_string counted
          ∙ read
          ∙ sym (ap (λ d. some (codes "172." ++ (d ++ codes ".0.100"))) number),
      omega arith,
      omega arith,
    )

abbrev pub AllShow : ℕ → Bool → List Interface → Type 0
AllShow k b [] = Unit {0}
AllShow k b (ifa ∷ ifas) = (shows k ifa ≡ b) × AllShow k b ifas

-- No interface behind the first shows a higher second number than it.
abbrev pub Tops : Interface → List Interface → Type 0
Tops i [] = Unit {0}
Tops i (j ∷ js) = ((a b : ℕ) → shows a i ≡ true → shows b j ≡ true → b ≤ a) × Tops i js

abbrev pub IsDescending : List Interface → Type 0
IsDescending [] = Unit {0}
IsDescending (i ∷ is) = Tops i is × IsDescending is

-- The count does not pass the number of an interface that lies above all that follow.
lowest-Tops :
    (i : Interface) (js : List Interface) (k : ℕ)
    → length js < k
    → Tops i js
    → shows (lowest k js) i ≡ true
    → lowest k js ≡ k
unfolding lowest
lowest-Tops i [] k pos t h = refl
lowest-Tops i (j ∷ js) k pos t h = elim (Bool-cases (shows k j)) [
  | inr miss ↦ rw miss (lowest-Tops i js k (omega arith) t.1 (rw miss at h))
  | inl hit ↦
      let h' : shows (lowest (k - 1) js) i ≡ true = rw hit at h in
      let e = lowest-Tops i js (k - 1) (omega arith) t.1 h' in
      let low = t.0 (k - 1) k (ap (λ n. shows n i) (sym e) ∙ h') hit in absurd (omega arith)
]

not-true : (b : Bool) → ¬ (b ≡ true) → b ≡ false
not-true true h = absurd (h refl)
not-true false h = refl

lowest-free :
    (ifas : List Interface) (k : ℕ)
    → length ifas < k
    → k < 100
    → IsDescending ifas
    → AllShow (lowest k ifas) false ifas
unfolding lowest
lowest-free [] k pos lt d = tt
lowest-free (i ∷ is) k pos lt d = elim (Bool-cases (shows k i)) [
  | inl hit ↦
      let low = lowest_bounds (k - 1) is in
      let now : lowest k (i ∷ is) ≡ lowest (k - 1) is = rw hit refl in
      let miss = not-true (shows (lowest (k - 1) is) i) λ h.
        let e = lowest-Tops i is (k - 1) (omega arith) d.0 h in
        let h' = ap (λ n. shows n i) (sym e) ∙ h in
        let one = shows_unique k (k - 1) i hit h' in omega arith in
      (
        ap (λ n. shows n i) now ∙ miss,
        subst (λ n. AllShow n false is) (sym now)
            (lowest-free is (k - 1) (omega arith) (omega arith) d.1),
      )
  | inr miss ↦
      let now : lowest k (i ∷ is) ≡ lowest k is = rw miss refl in
      let miss' =
        not-true (shows (lowest k is) i)
          λ h. cc (ap (λ n. shows n i) (lowest-Tops i is k (omega arith) d.0 h), h, miss) in
      (
        ap (λ n. shows n i) now ∙ miss',
        subst (λ n. AllShow n false is) (sym now) (lowest-free is k (omega arith) lt d.1),
      )
]

-- If there are at most twenty-one interfaces and none comes before one with a higher second number,
-- main leaves the manager the address "172.k.0.100", where k is 31 less one for each interface, in
-- their order, whose address begins with the number that the count has reached, and that address
-- shares its first two numbers with no interface.
pub free_ip-free :
    (ifas : List Interface)
    → length ifas ≤ 21
    → IsDescending ifas
    → (free_ip (some ifas) k_ipv4 ≡ some (address (lowest 31 ifas)))
      × AllShow (lowest 31 ifas) false ifas
free_ip-free ifas h d =
    ((free_ip-lowest ifas h).0, lowest-free ifas 31 (omega arith) (omega arith) d)

-- An interface of address "172.k." and what follows.
abbrev pub at : Bytes → Bytes → Interface
at second rest = record { is_inet = true; text = some (codes "172." ++ (second ++ rest)) }

-- With an interface in 172.30 listed before one in 172.31, main leaves the manager 172.30.0.100,
-- which shares its first two numbers with the first interface: the list is gone through once.
pub free_ip-taken :
    (rest rest' : Bytes)
    → let low = at (codes "30.") rest in
      (free_ip (some (low ∷ at (codes "31.") rest' ∷ [])) k_ipv4 ≡ some (codes "172.30.0.100"))
      × (shows 30 low ≡ true)
unfolding strncmp_eq
free_ip-taken rest rest' =
    let ifas = at (codes "30.") rest ∷ at (codes "31.") rest' ∷ [] in
    let counted : lowest 31 ifas ≡ 30 = unfold lowest in refl in
    (
      (free_ip-lowest ifas (omega arith)).0
          ∙ ap (λ k. some (address k)) counted
          ∙ (unfold decimal in refl),
      refl,
    )
