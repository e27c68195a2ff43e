-- ===== src/Manager/Candidates/Colons.antt =====
-- What a peer reads of a candidate whose address text holds a colon.
use ipop_tincan.Prelude.{
  ℕ, suc, ◌≤◌, ◌≡◌, refl, ap, ◌∙◌, List, [], ◌∷◌, ◌++◌, arith, Bytes, length, append_assoc,
}
use ipop_tincan.Text.Decimal.{decimal}
use ipop_tincan.Text.Fields.{Free, IsSplit, prepend, fields, fields-cut}
use ipop_tincan.Manager.{Libjingle}
use ipop_tincan.Manager.Candidates.{join, field, format_candidate, read_candidate}
use ipop_tincan.Manager.Candidates.Reading.{candidates_of}
use ipop_tincan.Manager.Candidates.Exchange.{until_space, split-parts, decimal-Free}
use ipop_tincan.Manager.Types.{Candidate}

length-prepend :
    (d : ℕ) (p : Bytes) (s : Bytes) → length (prepend p (fields d s)) ≡ length (fields d s)
unfolding fields
length-prepend d p [] = refl
length-prepend d p (c ∷ s) = ground (arith, length-prepend d (c ∷ []) s)

-- A delimiter adds a field, whatever stands before it.
length-fields-cut :
    (d : ℕ) (s rest : Bytes) → suc (length (fields d rest)) ≤ length (fields d (s ++ d ∷ rest))
unfolding fields
length-fields-cut d [] rest = ground arith
length-fields-cut d (c ∷ s) rest =
    ground (arith, length-fields-cut d s rest, length-prepend d (c ∷ []) (s ++ d ∷ rest))

length-fields : (s : Bytes) → 1 ≤ length (fields b':' s)
unfolding fields
length-fields [] = omega arith
length-fields (c ∷ s) = ground (arith, length-fields s, length-prepend b':' (c ∷ []) s)

length-fields-join :
    (f : Bytes) (fs : List Bytes) → length (f ∷ fs) ≤ length (fields b':' (join (f ∷ fs)))
length-fields-join f [] = length-fields f
length-fields-join f (g ∷ fs) =
    omega (arith, length-fields-cut b':' f (join (g ∷ fs)), length-fields-join g fs)

module _ (lib : Libjingle) (law : IsSplit lib.split) (c : Candidate) (a b : Bytes) where
  -- The fields behind the address.
  abbrev after_ip : List Bytes
  after_ip =
      decimal c.address.port
      ∷ decimal c.priority
      ∷ c.username
      ∷ c.password
      ∷ c.kind
      ∷ until_space c.network_name
      ∷ decimal c.generation
      ∷ c.foundation
      ∷ []

  split-ipv6 :
      Free b':' c.id
      → Free b':' c.protocol
      → Free b':' a
      → lib.ip_to_string c.address ≡ a ++ b':' ∷ b
      → lib.split b':' (format_candidate lib c)
        ≡ c.id ∷ decimal c.component ∷ c.protocol ∷ a ∷ fields b':' (b ++ b':' ∷ join after_ip)
  split-ipv6 hi hp ha e =
      split-parts lib lib law c
      ∙ fields-cut b':' c.id _ hi
      ∙ ap (◌∷◌ c.id) (
          fields-cut b':' (decimal c.component) _ (decimal-Free c.component)
          ∙ ap (◌∷◌ (decimal c.component)) (
              fields-cut b':' c.protocol _ hp
              ∙ ap (◌∷◌ c.protocol) (
                  rw (e, append_assoc a (b':' ∷ b) (b':' ∷ join after_ip))
                    (fields-cut b':' a (b ++ b':' ∷ join after_ip) ha))))

  -- An address text with a colon, as every IPv6 address has, is cut there: the peer reads a
  -- candidate whose host is only what stands before the first colon.
  pub ipv6-candidate-cut :
      Free b':' c.id
      → Free b':' c.protocol
      → Free b':' a
      → lib.ip_to_string c.address ≡ a ++ b':' ∷ b
      → (c' : Candidate) × (candidates_of lib (format_candidate lib c ∷ []) ≡ c' ∷ [])
        × (c'.address.host ≡ a)
  unfolding candidates_of read_candidate
  ipv6-candidate-cut hi hp ha e = (
    read_candidate (lib.split b':' (format_candidate lib c)),
    ground (
      arith,
      ap length (split-ipv6 hi hp ha e),
      length-fields-cut b':' b (join after_ip),
      length-fields-join (decimal c.address.port) (
          decimal c.priority
          ∷ c.username
          ∷ c.password
          ∷ c.kind
          ∷ until_space c.network_name
          ∷ decimal c.generation
          ∷ c.foundation
          ∷ []),
    ),
    ap (λ (fs : List Bytes). field fs 3) (split-ipv6 hi hp ha e),
  )
