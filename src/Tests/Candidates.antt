-- ===== src/Tests/Candidates.antt =====
-- Candidates of one node, read at another.
use ipop_tincan.Prelude.{
  ◌≡◌, refl, ◌⊎◌, true, none, some, [], ◌∷◌, ◌++◌, Bytes, codes, arith, map, nat_eq, bytes_eq,
}
use ipop_tincan.Map.{empty, find, insert}
use ipop_tincan.StringSet.{IsOrdered}
use ipop_tincan.Text.Decimal.{decimal}
use ipop_tincan.Text.{find_char}
use ipop_tincan.Text.Fields.{fields-IsSplit}
use ipop_tincan.Text.Words.{words}
use ipop_tincan.Manager.{init, k_con_resp}
use ipop_tincan.Manager.Types.{Candidate, Peer, send_to_peer, on_remote_candidates}
use ipop_tincan.Manager.Links.{
  create_transport, add_link, setup_transport, new_peer, insert_transport_map,
}
use ipop_tincan.Manager.Links.Creation.{made}
use ipop_tincan.Manager.Candidates.{
  interface_of, format_candidate, collect, spaced, create_connections,
  on_candidates_allocation_done,
}
use ipop_tincan.Manager.Candidates.Reading.{candidates_of, create_connections-words}
use ipop_tincan.Manager.Candidates.Exchange.{until_space, IsPlain, received, candidates-roundtrip}
use ipop_tincan.Manager.Candidates.Colons.{ipv6-candidate-cut}
use ipop_tincan.Manager.Candidates.Advertising.{
  collect-IsOrdered, on_candidates_allocation_done-sends,
}
use ipop_tincan.Manager.Signals.{transport_uid}
use ipop_tincan.Tests.Sample.{lib, linked, start, fresh, link, peer_uid}

abbrev candidate : Bytes → Candidate
candidate host = record {
  id = codes "1";
  component = 1;
  protocol = codes "udp";
  address = record { host = host; port = 3478 };
  priority = 2113937151;
  username = codes "u";
  password = codes "p";
  kind = codes "local";
  network_name = codes "eth0 x";
  generation = 0;
  foundation = codes "f";
}

abbrev pub v4 : Candidate
v4 = candidate (codes "10.0.0.1")

abbrev v6 : Candidate
v6 = candidate (codes "fe80::1")

pub v4-IsPlain : IsPlain lib v4
unfolding format_candidate until_space interface_of find_char decimal
v4-IsPlain = ground arith

abbrev pub peer_made : Peer
peer_made = made lib start (fresh 100) (link peer_uid)

pub peer_there : find peer_uid linked.uid_map ≡ some peer_made
unfolding create_transport add_link setup_transport new_peer insert_transport_map init find insert
    empty
peer_there = refl

no_candidates : peer_made.candidates ≡ []
unfolding setup_transport new_peer
no_candidates = refl

abbrev text : Bytes
text = codes " 1:1:udp:10.0.0.1:3478:9:u:p:local:eth0:0:f  junk"

create_connections-words_example :
    create_connections lib linked peer_uid text
    ≡ some (
      record linked {
        uid_map =
            insert peer_uid
              (record peer_made { candidates = candidates_of lib (words text) })
              linked.uid_map;
      },
      true,
      on_remote_candidates peer_made.transport (candidates_of lib (words text)) ∷ [],
    )
create_connections-words_example =
    create_connections-words lib fields-IsSplit linked peer_uid text peer_made peer_there
      no_candidates

candidates-roundtrip_example :
    create_connections lib linked peer_uid (spaced (map (format_candidate lib) (v4 ∷ v4 ∷ [])))
    ≡ some (
      record linked {
        uid_map =
            insert peer_uid
              (record peer_made { candidates = map (received lib) (v4 ∷ v4 ∷ []) })
              linked.uid_map;
      },
      true,
      on_remote_candidates peer_made.transport (map (received lib) (v4 ∷ v4 ∷ [])) ∷ [],
    )
candidates-roundtrip_example =
    candidates-roundtrip lib lib fields-IsSplit linked peer_uid peer_made (v4 ∷ v4 ∷ []) peer_there
      no_candidates (v4-IsPlain, (v4-IsPlain, tt))

ipv6-candidate-cut_example :
    (c : Candidate) × (candidates_of lib (format_candidate lib v6 ∷ []) ≡ c ∷ [])
    × (c.address.host ≡ codes "fe80")
ipv6-candidate-cut_example =
    ipv6-candidate-cut lib fields-IsSplit v6 (codes "fe80") (codes ":1") (omega arith) (omega arith)
      (omega arith) refl

collect-IsOrdered_example : IsOrdered (collect lib linked (v6 ∷ v4 ∷ []) [])
collect-IsOrdered_example = collect-IsOrdered lib linked (v6 ∷ v4 ∷ []) [] tt

on_candidates_allocation_done-sends_example :
    ((find (transport_uid linked 100).0 linked.uid_map ≡ none)
      × (on_candidates_allocation_done linked 100 ≡ none))
    ⊎ ((p : Peer) × (find (transport_uid linked 100).0 linked.uid_map ≡ some p)
        × (on_candidates_allocation_done linked 100
            ≡ some (
              (transport_uid linked 100).1,
              send_to_peer p.overlay_id
                    (transport_uid linked 100).0
                    (linked.fingerprint ++ spaced p.candidate_list)
                    k_con_resp
                  ∷ [],
            )))
on_candidates_allocation_done-sends_example = on_candidates_allocation_done-sends linked 100
