-- ===== src/Manager/Candidates.antt =====
-- TinCanConnectionManager::OnCandidatesReady, OnCandidatesAllocationDone and CreateConnections: the
-- ICE candidates as text, sent to the peer and read back.
pub mod Slots
pub mod Reading
pub mod Exchange
pub mod Arrival
pub mod Colons
pub mod Advertising
use ipop_tincan.Prelude.{
  ℕ, zero, suc, ◌≡◌, Bool, true, false, ◌&&◌, Option, none, some, List, [], ◌∷◌, ◌++◌, Bytes,
  nat_eq, bytes_eq, length, get_or, ltb, if◌then◌else◌,
}
use ipop_tincan.Map.{find, insert, has}
use ipop_tincan.StringSet
use ipop_tincan.Text.{substr, compare_bytes, is_eq, find_char}
use ipop_tincan.Text.Decimal.{decimal, atoi}
use ipop_tincan.Text.Words.{extract}
use ipop_tincan.Manager.{Manager, Libjingle, k_con_resp}
use ipop_tincan.Manager.Signals.{transport_uid}
use ipop_tincan.Manager.Types.{Call, Peer, Candidate, send_to_peer, on_remote_candidates}

-- network_name().substr(0, network_name().find(' '))
unfoldable pub interface_of : Bytes → Bytes
interface_of name = elim (find_char b' ' name) [ none ↦ name | some i ↦ substr name 0 i ]

-- kCandidateDelim between the fields.
abbrev pub join : List Bytes → Bytes
join [] = []
join (f ∷ []) = f
join (f ∷ g ∷ fs) = f ++ b':' ∷ join (g ∷ fs)

-- The component, an int, is not negative.
unfoldable pub format_candidate : Libjingle → Candidate → Bytes
format_candidate lib c = join (
    c.id
    ∷ decimal c.component
    ∷ c.protocol
    ∷ lib.ip_to_string c.address
    ∷ decimal c.address.port
    ∷ decimal c.priority
    ∷ c.username
    ∷ c.password
    ∷ c.kind
    ∷ interface_of c.network_name
    ∷ decimal c.generation
    ∷ c.foundation
    ∷ [])

-- network_name().compare(kTapName) == 0
abbrev pub is_tap : Manager → Candidate → Bool
is_tap m c = is_eq (compare_bytes c.network_name m.tap_name)

abbrev pub collect_one : Libjingle → Manager → Candidate → List Bytes → List Bytes
collect_one lib m c set = if is_tap m c then set else StringSet.insert (format_candidate lib c) set

unfoldable pub collect : Libjingle → Manager → List Candidate → List Bytes → List Bytes
collect lib m [] set = set
collect lib m (c ∷ cs) set = collect lib m cs (collect_one lib m c set)

-- `none` is a call through a null PeerStatePtr.
unfoldable pub on_candidates_ready : Libjingle → Manager → ℕ → List Candidate → Option Manager
unfolding collect
on_candidates_ready lib m t cs =
    let (uid, m') = transport_uid m t in
    elim (find uid m'.uid_map) [
      | none ↦ none
      | some p ↦ some (record m' {
        uid_map =
            insert uid (record p { candidate_list = collect lib m cs p.candidate_list }) m'.uid_map;
      })
    ]

-- Each candidate with a space in front of it.
abbrev pub spaced : List Bytes → Bytes
spaced [] = []
spaced (c ∷ cs) = b' ' ∷ c ++ spaced cs

unfoldable pub on_candidates_allocation_done : Manager → ℕ → Option (Manager × List Call)
on_candidates_allocation_done m t =
    let (uid, m') = transport_uid m t in
    elim (find uid m'.uid_map) [
      | none ↦ none
      | some p ↦
          let (to, m'') = transport_uid m' t in
          some (
            m'',
            if has t m'.transport_map
                then send_to_peer p.overlay_id to (m.fingerprint ++ spaced p.candidate_list)
                    k_con_resp
                  ∷ []
                else [],
          )
    ]

abbrev pub field : List Bytes → ℕ → Bytes
field fs i = get_or fs i []

unfoldable pub read_candidate : List Bytes → Candidate
read_candidate fs = record {
  id = field fs 0;
  component = atoi (field fs 1);
  protocol = field fs 2;
  address = record { host = field fs 3; port = atoi (field fs 4) };
  priority = atoi (field fs 5);
  username = field fs 6;
  password = field fs 7;
  kind = field fs 8;
  network_name = field fs 9;
  generation = atoi (field fs 10);
  foundation = field fs 11;
}

-- The body of the loop after the extraction: a text with fewer than twelve fields adds nothing.
unfoldable pub add_candidate : Libjingle → Bytes → List Candidate → List Candidate
unfolding read_candidate
add_candidate lib text cs =
    let fs = lib.split b':' text in if ltb (length fs) 12 then cs else cs ++ read_candidate fs ∷ []

-- do { iss >> candidate_string; … } while (iss), on fuel; an empty word is a failed extraction.
unfoldable pub read_loop : Libjingle → ℕ → Bytes → List Candidate → Option (List Candidate)
read_loop lib zero s cs = none
read_loop lib (suc fuel) s cs =
    let (word, rest) = extract s in
    let more = read_loop lib fuel rest (add_candidate lib word cs) in
    elim word [ [] ↦ some (add_candidate lib [] cs) | c ∷ w ↦ more ]

-- One round for each character and one for the end are enough. `none` means no fuel.
unfoldable pub create_connections :
    Libjingle → Manager → Bytes → Bytes → Option (Manager × Bool × List Call)
create_connections lib m uid text = elim (find uid m.uid_map) [
  | none ↦ some (m, false, [])
  | some p ↦ elim p.candidates [
    | c ∷ cs ↦ some (m, false, [])
    | [] ↦ elim (read_loop lib (suc (length text)) text []) [
      | none ↦ none
      | some cs ↦ some (
        record m { uid_map = insert uid (record p { candidates = cs }) m.uid_map },
        true,
        on_remote_candidates p.transport cs ∷ [],
      )
    ]
  ]
]
