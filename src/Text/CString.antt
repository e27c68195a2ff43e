-- ===== src/Text/CString.antt =====
-- C strings: a char array up to its first zero.
use ipop_tincan.Prelude.{
  ◌≡◌, Option, none, some, [], ◌∷◌, ◌++◌, arith, Bytes, nat_beq, if◌then◌else◌,
}
use ipop_tincan.Text.Fields.{Free}

-- The C string at the start of the memory, `none` where no zero ends it.
unfoldable pub c_string : Bytes → Option Bytes
c_string [] = none
c_string (b ∷ memory) =
    let rest = c_string memory in
    if nat_beq b 0 then some [] else elim rest [ none ↦ none | some s ↦ some (b ∷ s) ]

pub c_string-append :
    (s t behind : Bytes)
    → Free 0 s
    → c_string behind ≡ some t
    → c_string (s ++ behind) ≡ some (s ++ t)
unfolding c_string
c_string-append [] t behind h e = e
c_string-append (b ∷ s) t behind h e =
    let rest = c_string-append s t behind h.1 e in let miss = h.0 in ground (arith, rest, miss)
