-- ===== src/JsonObject.antt =====
-- The JSON objects that the program builds: members by name, the last value of each.
use ipop_tincan.Prelude.{
  ℕ, ◌≡◌, refl, Bool, Option, none, some, List, [], ◌∷◌, arith, Bytes, bytes_eq, ◌==◌,
  if◌then◌else◌,
}

pub data Scalar : Type 0 where
  text : Bytes → Scalar
  number : ℕ → Scalar
  flag : Bool → Scalar

abbrev pub Row : Type 0
Row = List (Bytes × Scalar)

-- A member is a scalar, or an array of objects of scalars.
pub data Member : Type 0 where
  scalar : Scalar → Member
  rows : List Row → Member

abbrev pub Object : Type 0
Object = List (Bytes × Member)

-- o[name]
unfoldable pub member : Bytes → Object → Option Member
member name [] = none
member name ((other, v) ∷ o) = let rest = member name o in if other == name then some v else rest

-- o[name] = v
unfoldable pub set_member : Bytes → Member → Object → Object
set_member name v [] = (name, v) ∷ []
set_member name v ((other, w) ∷ o) =
    let rest = set_member name v o in if other == name then (other, v) ∷ o else (other, w) ∷ rest

abbrev pub set_text : Bytes → Bytes → Object → Object
set_text name s o = set_member name (scalar (text s)) o

abbrev pub set_number : Bytes → ℕ → Object → Object
set_number name n o = set_member name (scalar (number n)) o

pub member-set_member :
    (name other : Bytes) (v : Member) (o : Object)
    → member other (set_member name v o) ≡ (if name == other then some v else member other o)
unfolding member set_member
member-set_member name other v [] = refl
member-set_member name other v ((third, w) ∷ o) = ground (
  arith,
  bytes_eq.same_iff name other,
  bytes_eq.same_iff third name,
  bytes_eq.same_iff third other,
  member-set_member name other v o,
)
