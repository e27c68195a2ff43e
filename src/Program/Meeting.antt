-- ===== src/Program/Meeting.antt =====
-- How the candidates of one node become those of another: OnCandidatesReady,
-- OnCandidatesAllocationDone and the stanza at the one, CREATE_LINK at the other. What lies between,
-- the XMPP servers and the two controllers, is outside of the program.
use mathlib.Core.List.{Memᴰ}
use ipop_tincan.Prelude.{
  ℕ, ◌≡◌, refl, ◌↔◌, true, false, some, inl, inr, List, [], ◌∷◌, ◌++◌, map, arith, Bytes, nat_eq,
  bytes_eq, Holds-some,
}
use ipop_tincan.Map.{find, insert, find-insert_self}
use ipop_tincan.Text.Fields.{IsSplit}
use ipop_tincan.Text.Words.{words}
use ipop_tincan.Manager.{k_con_resp}
use ipop_tincan.Manager.Types.{Address, Peer, Candidate}
use ipop_tincan.Manager.Signals.{transport_uid}
use ipop_tincan.Manager.Links.{Link}
use ipop_tincan.Manager.Candidates.{collect, spaced, is_tap, on_candidates_ready, format_candidate}
use ipop_tincan.Manager.Candidates.Exchange.{IsPlain, received}
use ipop_tincan.Manager.Candidates.Arrival.{Found, Memᴰ-collect, Memᴰ-arrived}
use ipop_tincan.Manager.Candidates.Advertising.{collect-IsOrdered}
use ipop_tincan.StringSet.{IsOrdered}
use mathlib.Core.List.Memᴰ
use ipop_tincan.Xmpp.{open_state, send_stanza}
use ipop_tincan.Controller.{Env, Controller, Effect, libjingle, xmpp}
use ipop_tincan.Controller.Requests.{handle_message}
use ipop_tincan.Controller.Safety.{Agrees}
use ipop_tincan.Controller.Linking.{IsLinking, handed, handle_message-Linked}
use ipop_tincan.Program.{Program, step, candidates_ready, allocation_done, with_manager}
use ipop_tincan.Program.Sound.{IsSound}
use ipop_tincan.Program.Keeping.{candidates_ready-Keeps}
use ipop_tincan.Program.Relaying.{step-allocation_done}

-- A sound node whose session is open, with a live link of overlay 1 that has no candidates yet, and
-- the JID of its peer.
pub record IsWaiting (p : Program) (t : ℕ) (uid jid : Bytes) (peer : Peer) : Type 0 where
  pub sound : IsSound p
  pub live : find t p.controller.manager.transport_map ≡ some uid
  pub there : find uid p.controller.manager.uid_map ≡ some peer
  pub overlay : peer.overlay_id ≡ 1
  pub fresh : peer.candidate_list ≡ []
  pub opened : p.controller.network.xmpp_state ≡ open_state
  pub task : p.controller.network.tincan_task ≡ true
  pub known : find uid p.controller.network.g_uid_map ≡ some jid

-- The texts of the candidates that libjingle finds.
abbrev pub texts : Env → Program → List Candidate → List Bytes
texts here p cs = collect here.lib p.controller.manager cs []

Memᴰ-texts :
    (here : Env) (p : Program) (cs : List Candidate) (text : Bytes)
    → Memᴰ text (texts here p cs) ↔ Found p.controller.manager cs (format_candidate here.lib) text
Memᴰ-texts here p cs text =
    let (f, g) = Memᴰ-collect here.lib p.controller.manager text cs [] in
    (λ k. elim (f k) [ inl x ↦ x | inr none ↦ absurd (Memᴰ.not-nil none) ], λ x. g (inl x))

abbrev pub gathered : Env → Program → List Candidate → Bytes → Peer → Program
gathered here p cs uid peer =
    let m = p.controller.manager in
    with_manager p (record m {
      uid_map = insert uid (record peer { candidate_list = texts here p cs }) m.uid_map;
    })

module _ (here : Env) (p : Program) (t : ℕ) (uid jid : Bytes) (peer : Peer) (cs : List Candidate)
    (w : IsWaiting p t uid jid peer) where
  on_candidates_ready-gathered :
      on_candidates_ready here.lib p.controller.manager t cs
      ≡ some (gathered here p cs uid peer).controller.manager
  unfolding on_candidates_ready transport_uid
  on_candidates_ready-gathered = ground (arith, w.live, w.there, w.fresh)

  step-candidates_ready :
      step here (candidates_ready t cs) p ≡ some (gathered here p cs uid peer, [])
  unfolding step
  step-candidates_ready = rw on_candidates_ready-gathered refl

  gathered-sends :
      step here (allocation_done t) (gathered here p cs uid peer)
      ≡ some (
        gathered here p cs uid peer,
        xmpp (
              send_stanza jid
                (p.controller.manager.fingerprint ++ spaced (texts here p cs))
                k_con_resp)
            ∷ [],
      )
  gathered-sends =
      let q = record peer { candidate_list = texts here p cs } in
      let kept =
        Holds-some (λ r. IsSound r.0) _ _ (candidates_ready-Keeps here p w.sound t uid w.live cs)
          step-candidates_ready in
      step-allocation_done here (gathered here p cs uid peer) t uid jid q kept w.live
        (find-insert_self uid q p.controller.manager.uid_map) w.overlay w.opened w.task w.known

-- A sound node is waiting for candidates on its link to a peer, and libjingle gives it some, and says
-- that these are all. Then it sends the peer's JID one stanza, with its fingerprint and then texts in
-- increasing order, each once: the formatted candidates, but for the ones of the tap device. Another node, with a table of methods that agrees with init_map, gets CREATE_LINK
-- with a text of the same words from its controller, for an id that is not its own and with which it
-- has no link. Then that node makes a link, over the new transport, whose candidates are exactly
-- those that libjingle found, each as a peer has it, but for the ones of the tap device; and if the
-- text is not empty, the last call gives them to that transport. The fields of these candidates have
-- no colons, their texts no white space, and their numbers fit an int.
pub allocation_done-handle_message :
    (here there : Env) (p : Program) (t : ℕ) (uid jid : Bytes) (peer : Peer) (cs : List Candidate)
    (c : Controller) (request cas : Bytes) (l : Link) (addr : Address)
    → IsWaiting p t uid jid peer
    → ((d : Candidate) → Memᴰ d cs → is_tap p.controller.manager d ≡ false → IsPlain here.lib d)
    → IsSplit there.lib.split
    → Agrees c.rpc_calls
    → words cas ≡ words (spaced (texts here p cs))
    → IsLinking there c request cas l
    → (step here (candidates_ready t cs) p ≡ some (gathered here p cs uid peer, []))
      × (step here (allocation_done t) (gathered here p cs uid peer)
          ≡ some (
            gathered here p cs uid peer,
            xmpp (
                  send_stanza jid
                    (p.controller.manager.fingerprint ++ spaced (texts here p cs))
                    k_con_resp)
                ∷ [],
          ))
      × IsOrdered (texts here p cs)
      × ((text : Bytes)
          → Memᴰ text (texts here p cs)
            ↔ Found p.controller.manager cs (format_candidate here.lib) text)
      × (c' : Controller) × (before : List Effect) × (q : Peer) × (handle_message there c request
            addr
          ≡ some (c', before ++ map libjingle (handed cas q)))
      × (find l.uid c'.manager.uid_map ≡ some q)
      × (q.transport ≡ there.fresh.transport)
      × ((d : Candidate)
          → Memᴰ d q.candidates ↔ Found p.controller.manager cs (received here.lib) d)
allocation_done-handle_message here there p t uid jid peer cs c request cas l addr w plain law
      agrees read h =
    let (c', effects, handled, linked) =
      handle_message-Linked there c request cas l addr law agrees h in
    let (q, before, found, at, same, last) = linked in
    (
      step-candidates_ready here p t uid jid peer cs w,
      gathered-sends here p t uid jid peer cs w,
      collect-IsOrdered here.lib p.controller.manager cs [] tt,
      λ text. Memᴰ-texts here p cs text,
      c',
      before,
      q,
      rw (← last) handled,
      found,
      at,
      λ d. rw (same, read) (Memᴰ-arrived here.lib there.lib law p.controller.manager cs plain d),
    )
