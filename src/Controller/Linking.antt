-- ===== src/Controller/Linking.antt =====
-- CREATE_LINK for a peer that the node has no link with: what HandlePacket, CreateTransport and
-- CreateConnections leave.
use ipop_tincan.Prelude.{
  ◌≡◌, ◌≢◌, refl, ◌∙◌, inl, inr, true, none, some, List, [], ◌∷◌, ◌++◌, map, append-nil, arith,
  Bytes, codes, nat_eq, bytes_eq, if◌then◌else◌,
}
use mathlib.Core.List.{map-append}
use ipop_tincan.Map.{find, insert, empty, find-insert_self}
use ipop_tincan.Text.{is_empty}
use ipop_tincan.Text.Fields.{IsSplit}
use ipop_tincan.Text.Words.{words}
use ipop_tincan.Manager.{Manager}
use ipop_tincan.Manager.Types.{Peer, Address, Call, on_remote_candidates}
use ipop_tincan.Manager.Links.{Link, create_transport, add_link, new_peer, setup_transport}
use ipop_tincan.Manager.Links.Creation.{made, uid-made, transport-made, create_transport-cases}
use ipop_tincan.Manager.Candidates.Reading.{candidates_of, create_connections-words}
use ipop_tincan.Controller.{Env, Controller, Effect, libjingle, lookup_rpc, create_link}
use ipop_tincan.Controller.{init_map, enter_all}
use ipop_tincan.Controller.Safety.{Agrees}
use ipop_tincan.Controller.Requests.{handle_message, dispatch, do_create_link, link_up, link_of}

-- What goes to the transport at the end.
abbrev pub handed : Bytes → Peer → List Call
handed cas q = if is_empty cas then [] else on_remote_candidates q.transport q.candidates ∷ []

candidates-made :
    (env : Env) (m : Manager) (l : Link) → (made env.lib m env.fresh l).candidates ≡ []
unfolding setup_transport new_peer
candidates-made env m l = ground arith

find-add_link :
    (p : Peer) (uid : Bytes) (m : Manager) → p.uid ≡ uid → find uid (add_link p m).uid_map ≡ some p
unfolding add_link
find-add_link p uid m e = rw (← e) (find-insert_self p.uid p m.uid_map)

module _ (env : Env) (law : IsSplit env.lib.split) (m : Manager) (l : Link)
    (free : find l.uid m.uid_map ≡ none) (other : m.tincan_id ≢ l.uid) where
  create_transport-new :
      (calls : List Call) × (create_transport env.lib m env.fresh l
        ≡ (add_link (made env.lib m env.fresh l) m, true, calls))
  create_transport-new =
      let made_calls = (create_transport env.lib m env.fresh l).2 in
      elim (create_transport-cases env.lib m env.fresh l) [
        | inl (inl there, e) ↦ absurd (cc (free, there))
        | inl (inr own, e) ↦ absurd (other own)
        | inr (f, o, e, done) ↦ (made_calls, λ i. (e i, done i, made_calls))
      ]

  pub link_up-new :
      (cas : Bytes)
      → (m' : Manager) × (before : List Call) × (q : Peer) × (link_up env m l cas
          ≡ some (m', before ++ handed cas q))
        × (find l.uid m'.uid_map ≡ some q)
        × (q.transport ≡ env.fresh.transport)
        × (q.candidates ≡ candidates_of env.lib (words cas))
  unfolding link_up
  link_up-new [] =
      let (calls, e) = create_transport-new in
      let p = made env.lib m env.fresh l in
      (
        add_link p m,
        calls,
        p,
        rw (e, append-nil) refl,
        find-add_link p l.uid m (uid-made env.lib m env.fresh l),
        transport-made env.lib m env.fresh l,
        candidates-made env m l ∙ unfold candidates_of words in refl,
      )
  link_up-new (c ∷ s) =
      let (calls, e) = create_transport-new in
      let p = made env.lib m env.fresh l in
      let m' = add_link p m in
      let there = find-add_link p l.uid m (uid-made env.lib m env.fresh l) in
      let q = record p { candidates = candidates_of env.lib (words (c ∷ s)) } in
      (
        record m' { uid_map = insert l.uid q m'.uid_map },
        calls,
        q,
        rw
            (
              e,
              create_connections-words env.lib law m' l.uid (c ∷ s) p there
                  (candidates-made env m l),
            )
            refl,
        find-insert_self l.uid q m'.uid_map,
        transport-made env.lib m env.fresh l,
        refl,
      )

create_link-meant : (lookup_rpc (codes "create_link") init_map).0 ≡ create_link
unfolding lookup_rpc init_map enter_all find insert empty
create_link-meant = refl

-- A request to make a link to a peer that has none, with the text of its candidates.
pub record IsLinking (env : Env) (c : Controller) (request cas : Bytes) (l : Link) : Type 0 where
  pub parsed : (env.parse request).0 ≡ true
  pub method_named : (env.parse request).1.as_string (codes "m") ≡ some (codes "create_link")
  pub link_named : link_of (env.parse request).1 ≡ some l
  pub cas_named : (env.parse request).1.as_string (codes "cas") ≡ some cas
  pub free : find l.uid c.manager.uid_map ≡ none
  pub other : c.manager.tincan_id ≢ l.uid

-- The link is made, and the candidates of the text are the peer's and go to its transport last.
abbrev pub Linked : Env → Bytes → Bytes → Controller → List Effect → Type 0
Linked env uid cas c effects =
    (q : Peer) × (before : List Effect) × (find uid c.manager.uid_map ≡ some q)
    × (q.transport ≡ env.fresh.transport)
    × (q.candidates ≡ candidates_of env.lib (words cas))
    × (effects ≡ before ++ map libjingle (handed cas q))

pub handle_message-Linked :
    (env : Env) (c : Controller) (request cas : Bytes) (l : Link) (addr : Address)
    → IsSplit env.lib.split
    → Agrees c.rpc_calls
    → IsLinking env c request cas l
    → (c' : Controller) × (effects : List Effect) × (handle_message env c request addr
        ≡ some (c', effects))
      × Linked env l.uid cas c' effects
unfolding handle_message dispatch do_create_link
handle_message-Linked env c request cas l addr law agrees h =
    let calls = (lookup_rpc (codes "create_link") c.rpc_calls).1 in
    let meant : (lookup_rpc (codes "create_link") c.rpc_calls).0 ≡ create_link =
      agrees (codes "create_link") ∙ create_link-meant in
    let (m', before, q, e, there, at, same) = link_up-new env law c.manager l h.free h.other cas in
    (
      record c { manager = m'; rpc_calls = calls },
      map libjingle (before ++ handed cas q),
      rw (h.method_named, meant, h.link_named, h.cas_named, e, h.parsed, append-nil) refl,
      (q, map libjingle before, there, at, same, map-append libjingle before (handed cas q)),
    )
