-- ===== src/Manager/Candidates/Exchange.antt =====
-- What a peer reads of the candidates that a node sends.
use ipop_tincan.Prelude.{
  ℕ, ◌<◌, ◌^◌, true, some, nat_beq, nat_eq, bytes_eq, if◌then◌else◌, Option-cases, inl, inr, ◌≡◌,
  refl, ap, ◌∙◌, List, [], ◌∷◌, ◌++◌, arith, Bytes, map,
}
use ipop_tincan.Text.Decimal.{AllDigits, decimal, decimal-AllDigits, atoi-decimal}
use ipop_tincan.Text.Fields.{Free, IsSplit, fields, fields-Free, fields-cut, split-eq-fields}
use ipop_tincan.Text.Words.{words, Solid, words-append}
use ipop_tincan.Map.{find, insert}
use ipop_tincan.Text.{find_char}
use ipop_tincan.Manager.{Manager, Libjingle}
use ipop_tincan.Manager.Candidates.{
  join, spaced, interface_of, format_candidate, read_candidate, create_connections,
}
use ipop_tincan.Manager.Candidates.Reading.{candidates_of, create_connections-words}
use ipop_tincan.Manager.Types.{Candidate, Peer, on_remote_candidates}

AllDigits-Free : (s : Bytes) → AllDigits s → Free b':' s
AllDigits-Free [] h = tt
AllDigits-Free (c ∷ s) h = (λ e. absurd (omega arith), AllDigits-Free s h.2)

pub decimal-Free : (n : ℕ) → Free b':' (decimal n)
decimal-Free n = AllDigits-Free (decimal n) (decimal-AllDigits n)

abbrev AllFree : List Bytes → Type 0
AllFree [] = Unit {0}
AllFree (f ∷ fs) = Free b':' f × AllFree fs

fields-join :
    (f : Bytes) (fs : List Bytes) → AllFree (f ∷ fs) → fields b':' (join (f ∷ fs)) ≡ f ∷ fs
fields-join f [] h = fields-Free b':' f h.0
fields-join f (g ∷ fs) h = fields-cut b':' f (join (g ∷ fs)) h.0 ∙ ap (◌∷◌ f) (fields-join g fs h.1)

-- The text up to its first space.
unfoldable pub until_space : Bytes → Bytes
until_space [] = []
until_space (c ∷ s) = let rest = until_space s in if nat_beq c b' ' then [] else c ∷ rest

interface_of-until_space : (s : Bytes) → interface_of s ≡ until_space s
unfolding interface_of until_space find_char
interface_of-until_space [] = refl
interface_of-until_space (c ∷ s) = elim (Option-cases (find_char b' ' s)) [
  | inl e ↦ ground (arith, e, interface_of-until_space s)
  | inr (i, e) ↦ ground (arith, e, interface_of-until_space s)
]

-- A candidate whose texts hold no colon and no white space, with numbers that fit an int.
pub record IsPlain (lib : Libjingle) (c : Candidate) : Type 0 where
  pub id : Free b':' c.id
  pub protocol : Free b':' c.protocol
  pub ip : Free b':' (lib.ip_to_string c.address)
  pub username : Free b':' c.username
  pub password : Free b':' c.password
  pub kind : Free b':' c.kind
  pub interface : Free b':' (until_space c.network_name)
  pub foundation : Free b':' c.foundation
  pub component : c.component < 2 ^ 31
  pub port : c.address.port < 2 ^ 31
  pub priority : c.priority < 2 ^ 31
  pub generation : c.generation < 2 ^ 31
  pub solid : Solid (format_candidate lib c)

-- The candidate as the peer has it: the address by its text, the network by its text up to the first space.
unfoldable pub received : Libjingle → Candidate → Candidate
received lib c = record c {
  address = record { host = lib.ip_to_string c.address; port = c.address.port };
  network_name = until_space c.network_name;
}

abbrev pub parts : Libjingle → Candidate → List Bytes
parts lib c =
    c.id
    ∷ decimal c.component
    ∷ c.protocol
    ∷ lib.ip_to_string c.address
    ∷ decimal c.address.port
    ∷ decimal c.priority
    ∷ c.username
    ∷ c.password
    ∷ c.kind
    ∷ until_space c.network_name
    ∷ decimal c.generation
    ∷ c.foundation
    ∷ []

abbrev pub AllPlain : Libjingle → List Candidate → Type 0
AllPlain lib [] = Unit {0}
AllPlain lib (c ∷ cs) = IsPlain lib c × AllPlain lib cs

-- `lib` formats at one node, and `there` splits at the other.
module _ (lib there : Libjingle) (law : IsSplit there.split) where
  pub split-parts :
      (c : Candidate) → there.split b':' (format_candidate lib c) ≡ fields b':' (join (parts lib c))
  unfolding format_candidate
  split-parts c = rw interface_of-until_space (split-eq-fields law b':' (join (parts lib c)))

  pub split-format :
      (c : Candidate) → IsPlain lib c → there.split b':' (format_candidate lib c) ≡ parts lib c
  split-format c h =
      split-parts c
      ∙ fields-join c.id _ (
        h.id,
        (
          decimal-Free c.component,
          (
            h.protocol,
            (
              h.ip,
              (
                decimal-Free c.address.port,
                (
                  decimal-Free c.priority,
                  (
                    h.username,
                    (
                      h.password,
                      (h.kind, (h.interface, (decimal-Free c.generation, (h.foundation, tt)))),
                    ),
                  ),
                ),
              ),
            ),
          ),
        ),
      )

  pub read-parts : (c : Candidate) → IsPlain lib c → read_candidate (parts lib c) ≡ received lib c
  unfolding read_candidate received
  read-parts c h = ground (
    arith,
    atoi-decimal c.component,
    atoi-decimal c.address.port,
    atoi-decimal c.priority,
    atoi-decimal c.generation,
  )

  candidates_of-format :
      (cs : List Candidate)
      → AllPlain lib cs
      → candidates_of there (map (format_candidate lib) cs) ≡ map (received lib) cs
  unfolding candidates_of
  candidates_of-format [] h = refl
  candidates_of-format (c ∷ cs) h =
      rw (split-format c h.0, read-parts c h.0, candidates_of-format cs h.1)

-- A text of the form that `>>` reads as one word.
abbrev pub IsWord : Bytes → Type 0
IsWord [] = ⊥
IsWord (c ∷ w) = Solid (c ∷ w)

abbrev pub AllWords : List Bytes → Type 0
AllWords [] = Unit {0}
AllWords (w ∷ ws) = IsWord w × AllWords ws

pub words-spaced : (ws : List Bytes) → AllWords ws → words (spaced ws) ≡ ws
unfolding words
words-spaced [] h = refl
words-spaced ([] ∷ ws) h = absurd h.0
words-spaced ((c ∷ w) ∷ []) h = words-append c w [] h.0 tt
words-spaced ((c ∷ w) ∷ v ∷ ws) h =
    words-append c w (spaced (v ∷ ws)) h.0 refl ∙ ap (◌∷◌ (c ∷ w)) (words-spaced (v ∷ ws) h.1)

-- The message of OnCandidatesAllocationDone, read word by word, is the fingerprint and then the
-- texts of the set.
pub words-message :
    (fpr : Bytes) (ws : List Bytes) → IsWord fpr → AllWords ws → words (fpr ++ spaced ws) ≡ fpr ∷ ws
unfolding words
words-message [] ws f h = absurd f
words-message (c ∷ f) [] g h = words-append c f [] g tt
words-message (c ∷ f) (w ∷ ws) g h =
    words-append c f (spaced (w ∷ ws)) g refl ∙ ap (◌∷◌ (c ∷ f)) (words-spaced (w ∷ ws) h)

IsWord-append : (f rest : Bytes) → Solid (f ++ b':' ∷ rest) → IsWord (f ++ b':' ∷ rest)
IsWord-append [] rest h = h
IsWord-append (c ∷ f) rest h = h

pub format-IsWord :
    (lib : Libjingle) (c : Candidate)
    → Solid (format_candidate lib c)
    → IsWord (format_candidate lib c)
unfolding format_candidate
format-IsWord lib c h = IsWord-append c.id _ h

module _ (lib there : Libjingle) (law : IsSplit there.split) where
  formats-AllWords :
      (cs : List Candidate) → AllPlain lib cs → AllWords (map (format_candidate lib) cs)
  formats-AllWords [] h = tt
  formats-AllWords (c ∷ cs) h = (format-IsWord lib c h.0.solid, formats-AllWords cs h.1)

  candidates_of-spaced :
      (cs : List Candidate)
      → AllPlain lib cs
      → candidates_of there (words (spaced (map (format_candidate lib) cs))) ≡ map (received lib) cs
  candidates_of-spaced cs h =
      ap (candidates_of there) (words-spaced _ (formats-AllWords cs h))
      ∙ candidates_of-format lib there law cs h

  -- Candidates without colons and spaces in their texts, with numbers that fit an int, are formatted
  -- by one node and put together with spaces. CreateConnections of another node, given this text for
  -- a peer without candidates, stores and hands to the peer's transport the same candidates in the
  -- same order, with the address as its text and the network by its text up to the first space.
  pub candidates-roundtrip :
      (m : Manager) (uid : Bytes) (p : Peer) (cs : List Candidate)
      → find uid m.uid_map ≡ some p
      → p.candidates ≡ []
      → AllPlain lib cs
      → create_connections there m uid (spaced (map (format_candidate lib) cs))
        ≡ some (
          record m {
            uid_map = insert uid (record p { candidates = map (received lib) cs }) m.uid_map;
          },
          true,
          on_remote_candidates p.transport (map (received lib) cs) ∷ [],
        )
  candidates-roundtrip m uid p cs live none_yet h =
      let r = candidates_of-spaced cs h in
      rw (← r) (
        create_connections-words there law m uid (spaced (map (format_candidate lib) cs)) p live
          none_yet)
