-- ===== src/Tests/Meeting.antt =====
-- One candidate of the node of the sample, and the link that another node makes with it.
use mathlib.Core.List.{Memᴰ}
use mathlib.Core.List.Memᴰ
use ipop_tincan.Prelude.{
  ◌≡◌, ◌≢◌, refl, ◌↔◌, true, false, some, List, [], ◌∷◌, ◌++◌, map, Bytes, codes, ◌==◌, nat_eq,
  bytes_eq, if◌then◌else◌,
}
use ipop_tincan.Map.{find, find-empty, find-insert_self, empty}
use ipop_tincan.Text.Fields.{fields-IsSplit}
use ipop_tincan.Manager.{init, k_con_resp}
use ipop_tincan.Manager.Types.{Peer, Candidate}
use ipop_tincan.Manager.Links.{setup_transport, new_peer}
use ipop_tincan.Manager.Candidates.{spaced, is_tap, format_candidate}
use ipop_tincan.StringSet.{IsOrdered}
use ipop_tincan.Manager.Candidates.Exchange.{IsPlain, received}
use ipop_tincan.Manager.Candidates.Arrival.{Found}
use ipop_tincan.Xmpp.{send_stanza}
use ipop_tincan.Controller.{Env, Json, Controller, Effect, libjingle, xmpp}
use ipop_tincan.Controller.Requests.{handle_message, link_of}
use ipop_tincan.Controller.Linking.{IsLinking, handed}
use ipop_tincan.Program.{step, candidates_ready, allocation_done}
use ipop_tincan.Program.Meeting.{IsWaiting, texts, gathered, allocation_done-handle_message}
use ipop_tincan.Tests.Sample.{lib, start, link, other_uid}
use ipop_tincan.Tests.Sample
use ipop_tincan.Tests.Candidates.{v4, v4-IsPlain}
use ipop_tincan.Tests.Program.{node, node-IsSound, live, there, one, peer, peer_jid}
use ipop_tincan.Tests.Requests.{env, controller, local, trim_request}

no_candidates : peer.candidate_list ≡ []
unfolding setup_transport new_peer
no_candidates = refl

node-IsWaiting : IsWaiting node 100 Sample.peer_uid peer_jid peer
node-IsWaiting = record {
  sound = node-IsSound;
  live = live;
  there = there;
  overlay = one;
  fresh = no_candidates;
  opened = refl;
  task = refl;
  known = find-insert_self Sample.peer_uid peer_jid empty;
}

-- The other node has no link yet.
abbrev alone : Controller
alone = record controller { manager = start }

abbrev cas : Bytes
cas = spaced (texts env node (v4 ∷ []))

abbrev link_request : Json
link_request = record trim_request {
  as_string = λ k.
      if k == codes "m"
      then some (codes "create_link")
      else if k == codes "uid"
      then some other_uid
      else if k == codes "fpr"
      then some (codes "AA")
      else if k == codes "stun"
      then some (codes "s")
      else if k == codes "cas"
      then some cas
      else some [];
}

abbrev linking : Env
linking = record env { parse = λ s. (true, link_request) }

not_own : start.tincan_id ≢ other_uid
unfolding init
not_own e = cc e

alone-IsLinking : IsLinking linking alone (codes "{}") cas (link other_uid)
unfolding init link_of
alone-IsLinking = record {
  parsed = refl;
  method_named = refl;
  link_named = refl;
  cas_named = refl;
  free = find-empty {V = Peer} other_uid;
  other = not_own;
}

found-IsPlain :
    (d : Candidate) → Memᴰ d (v4 ∷ []) → is_tap node.controller.manager d ≡ false → IsPlain lib d
found-IsPlain d k other = rw (Memᴰ.eq_of_singleton k) v4-IsPlain

allocation_done-handle_message_example :
    (step env (candidates_ready 100 (v4 ∷ [])) node
      ≡ some (gathered env node (v4 ∷ []) Sample.peer_uid peer, []))
    × (step env (allocation_done 100) (gathered env node (v4 ∷ []) Sample.peer_uid peer)
        ≡ some (
          gathered env node (v4 ∷ []) Sample.peer_uid peer,
          xmpp (send_stanza peer_jid (node.controller.manager.fingerprint ++ cas) k_con_resp) ∷ [],
        ))
    × IsOrdered (texts env node (v4 ∷ []))
    × ((text : Bytes)
        → Memᴰ text (texts env node (v4 ∷ []))
          ↔ Found node.controller.manager (v4 ∷ []) (format_candidate lib) text)
    × (c' : Controller) × (before : List Effect) × (q : Peer) × (handle_message linking alone
          (codes "{}")
          local
        ≡ some (c', before ++ map libjingle (handed cas q)))
    × (find other_uid c'.manager.uid_map ≡ some q)
    × (q.transport ≡ 101)
    × ((d : Candidate)
        → Memᴰ d q.candidates ↔ Found node.controller.manager (v4 ∷ []) (received lib) d)
allocation_done-handle_message_example =
    allocation_done-handle_message env linking node 100 Sample.peer_uid peer_jid peer (v4 ∷ [])
      alone (codes "{}") cas (link other_uid) local node-IsWaiting found-IsPlain fields-IsSplit
      (λ method. refl) refl alone-IsLinking
