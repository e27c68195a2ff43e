-- ===== src/Controller/Tables.antt =====
-- What the requests do to the three tables of links: the changes of a peer that is there, Setup,
-- AddIPMapping and CreateConnections.
use ipop_tincan.Prelude.{
  ℕ, ◌≡◌, refl, inl, inr, Bool, true, false, suc, length, Option-cases, Option, none, some, List,
  [], ◌∷◌, Bytes, nat_eq, bytes_eq, arith, Holds, either,
}
use ipop_tincan.Map.{find, insert}
use ipop_tincan.Manager.{Manager, Libjingle}
use ipop_tincan.Manager.Types.{Peer, Call, Candidate, on_remote_candidates}
use ipop_tincan.Manager.Links.Safety.{IsConsistent}
use ipop_tincan.Manager.Links.Replacing.{replaced-IsConsistent}
use ipop_tincan.Manager.Candidates.{create_connections, read_loop}
use ipop_tincan.Manager.Setup.{setup, add_ip_mapping}

-- Setup fills fields that are not tables, and so does AddIPMapping.
pub setup-IsConsistent :
    (lib : Libjingle) (m : Manager) (uid ip4 : Bytes) (a : ℕ) (ip6 : Bytes) (b s w : ℕ)
    → IsConsistent m
    → IsConsistent (setup lib m uid ip4 a ip6 b s w).0
unfolding setup
setup-IsConsistent lib m uid ip4 a ip6 b s w c =
    either (λ (r : Manager × List Call). IsConsistent r.0) _ _ _ c
      (record {
        keyed = c.keyed;
        registered = c.registered;
        owned = c.owned;
        short_owned = c.short_owned;
      })

pub add_ip_mapping-IsConsistent :
    (lib : Libjingle) (m : Manager) (uid ip4 ip6 : Bytes)
    → IsConsistent m
    → IsConsistent (add_ip_mapping lib m uid ip4 ip6).0
unfolding add_ip_mapping
add_ip_mapping-IsConsistent lib m uid ip4 ip6 c =
    either (λ (r : Manager × Bool × List Call). IsConsistent r.0) _ _ _ c
      (record {
        keyed = c.keyed;
        registered = c.registered;
        owned = c.owned;
        short_owned = c.short_owned;
      })

create_connections-known :
    (lib : Libjingle) (m : Manager) (uid text : Bytes) (p : Peer) (cs : List Candidate)
    (o : Option (List Candidate))
    → IsConsistent m
    → find uid m.uid_map ≡ some p
    → p.candidates ≡ cs
    → read_loop lib (suc (length text)) text [] ≡ o
    → Holds (λ r. IsConsistent r.0) (create_connections lib m uid text)
unfolding create_connections
create_connections-known lib m uid text p (x ∷ xs) o c live e f =
    let g : create_connections lib m uid text ≡ some (m, false, []) = ground arith in rw g c
create_connections-known lib m uid text p [] none c live e f =
    let g : create_connections lib m uid text ≡ none = ground arith in rw g tt
create_connections-known lib m uid text p [] (some cs) c live e f =
    let q = record p { candidates = cs } in
    let g : create_connections lib m uid text
        ≡ some (
          record m { uid_map = insert uid q m.uid_map },
          true,
          on_remote_candidates p.transport cs ∷ [],
        ) =
      ground arith in
    rw g (replaced-IsConsistent m uid p q c live refl refl)

pub create_connections-IsConsistent :
    (lib : Libjingle) (m : Manager) (uid text : Bytes)
    → IsConsistent m
    → Holds (λ r. IsConsistent r.0) (create_connections lib m uid text)
unfolding create_connections
create_connections-IsConsistent lib m uid text c = elim (Option-cases (find uid m.uid_map)) [
  | inl gone ↦
      let g : create_connections lib m uid text ≡ some (m, false, []) = ground arith in rw g c
  | inr (p, live) ↦ create_connections-known lib m uid text p p.candidates _ c live refl refl
]
