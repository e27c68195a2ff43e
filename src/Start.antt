-- ===== src/Start.antt =====
-- src/tincan.cc: parse_args and get_free_network_ip. The interfaces are those that getifaddrs lists.
pub mod Octets
pub mod Free
use ipop_tincan.Prelude.{
  ℕ, zero, suc, ◌+◌, ◌-◌, ◌^◌, Bool, true, false, ◌&&◌, Option, none, some, List, [], ◌∷◌, ◌++◌,
  Bytes, codes, nat_beq, ltb, length, take, drop, replicate, if◌then◌else◌,
}
use ipop_tincan.Text.Decimal.{decimal, atoi}
use ipop_tincan.Text.CString.{c_string}

abbrev pub k_udp_port : ℕ
k_udp_port = 5800

abbrev pub k_tap_name : Bytes
k_tap_name = codes "ipop"

-- SEGMENT_SIZE, SEGMENT_OFFSET and CMP_SIZE
abbrev pub segment_size : ℕ
segment_size = 3

abbrev pub segment_offset : ℕ
segment_offset = 4

abbrev pub cmp_size : ℕ
cmp_size = 7

-- The C array of NI_MAXHOST bytes.
abbrev pub ni_maxhost : ℕ
ni_maxhost = 1025

-- An entry of the list: whether its address is there and of AF_INET, and its numeric text if
-- getnameinfo gives one.
pub record Interface : Type 0 where
  pub is_inet : Bool
  pub text : Option Bytes

-- strncmp(a, b, n) == 0, for arrays that hold a zero or n bytes.
unfoldable pub strncmp_eq : ℕ → Bytes → Bytes → Bool
strncmp_eq zero a b = true
strncmp_eq (suc n) [] b = false
strncmp_eq (suc n) (x ∷ a) [] = false
strncmp_eq (suc n) (x ∷ a) (y ∷ b) =
    let rest = strncmp_eq n a b in nat_beq x y && (if nat_beq x 0 then true else rest)

-- Bytes written into an array.
abbrev pub write_at : ℕ → Bytes → Bytes → Bytes
write_at pos text array = take pos array ++ text ++ drop (pos + length text) array

-- n - 1 by "%d", for the bit pattern of an int that is not the least.
unfoldable pub print_pred : ℕ → Bytes
print_pred zero = codes "-1"
print_pred (suc n) = if ltb n (2 ^ 31 - 1) then decimal n else b'-' ∷ decimal (2 ^ 32 - n)

-- atoi of the two bytes, and a zero.
unfoldable pub read_segment : Bytes → ℕ
read_segment array = elim (c_string (take 2 (drop segment_offset array) ++ 0 ∷ [])) [
  | none ↦ 0
  | some s ↦ atoi s
]

-- snprintf into the segment, and the point that its zero has overwritten.
unfoldable pub lower_segment : Bytes → Bytes
unfolding read_segment print_pred
lower_segment array =
    let text = take (segment_size - 1) (print_pred (read_segment array)) ++ 0 ∷ [] in
    write_at (cmp_size - 1) (b'.' ∷ []) (write_at segment_offset text array)

-- The body of the loop.
unfoldable pub visit : Interface → Bytes → Bytes
unfolding strncmp_eq lower_segment
visit ifa array = elim ifa.text [
  | none ↦ array
  | some text ↦
      if ifa.is_inet && strncmp_eq cmp_size array (text ++ 0 ∷ [])
      then lower_segment array
      else array
]

unfoldable pub visit_all : List Interface → Bytes → Bytes
unfolding visit
visit_all [] array = array
visit_all (ifa ∷ ifas) array = visit_all ifas (visit ifa array)

-- The array after the call, or `none` for -1: getifaddrs has failed.
unfoldable pub get_free_network_ip : Option (List Interface) → Bytes → Option Bytes
unfolding visit_all
get_free_network_ip none array = none
get_free_network_ip (some ifas) array = some (visit_all ifas array)

-- The lines of main about the address: the text that the manager has in the end.
unfoldable pub free_ip : Option (List Interface) → Bytes → Option Bytes
unfolding get_free_network_ip
free_ip ifas ipv4 =
    elim (get_free_network_ip ifas (ipv4 ++ replicate (ni_maxhost - length ipv4) 0)) [
      | none ↦ some ipv4
      | some array ↦ c_string array
    ]

-- parse_args: the name of the tap device and the port, or `none` where it prints and exits.
unfoldable pub parse_args : List Bytes → Bytes → ℕ → Option (Bytes × ℕ)
unfolding strncmp_eq
parse_args (arg0 ∷ arg ∷ []) tap port =
    if strncmp_eq 2 (arg ++ 0 ∷ []) (codes "-v" ++ 0 ∷ [])
    then none
    else if strncmp_eq 2 (arg ++ 0 ∷ []) (codes "-h" ++ 0 ∷ [])
    then none
    else some (tap, port)
parse_args (arg0 ∷ name ∷ number ∷ []) tap port = some (name, atoi number)
parse_args [] tap port = some (tap, port)
parse_args (arg0 ∷ []) tap port = some (tap, port)
parse_args (arg0 ∷ a ∷ b ∷ c ∷ rest) tap port = some (tap, port)
