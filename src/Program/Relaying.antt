-- ===== src/Program/Relaying.antt =====
-- From one node to the controller of another: OnCandidatesAllocationDone, the signal sender,
-- XmppNetwork::SendToPeer, and at the other end ProcessStart, HandlePeer and ControllerAccess.
use ipop_tincan.Xmpp.{handle_stanza}
use ipop_tincan.Program.{on_stanza}
use ipop_tincan.Prelude.{
  codes, length, ℕ, ◌≡◌, refl, true, some, [], ◌∷◌, ◌++◌, append-nil, map, arith, Bytes, nat_eq,
  bytes_eq, ap, ◌∙◌,
}
use ipop_tincan.Map.{Map, find, insert, find-insert_self}
use ipop_tincan.JsonObject.{Object}
use ipop_tincan.Controller.Notices.{IsNotice, datagram, send_to_peer-IsNotice}
use ipop_tincan.Manager.{k_con_resp}
use ipop_tincan.Manager.Types.{Peer, send_to_peer}
use ipop_tincan.Manager.Candidates.{spaced}
use ipop_tincan.Manager.Candidates.Slots.{on_candidates_allocation_done-live}
use ipop_tincan.Manager.Signals
use ipop_tincan.Xmpp.{
  Network, Stanza, Query, State, open_state, get_key, remember, is_from_peer, process_start,
  process_peer, read_query, send_stanza,
}
use ipop_tincan.Xmpp
use ipop_tincan.Xmpp.Messages.{send_to_peer-known}
use ipop_tincan.Xmpp.Keys.{full_jid, get_key-full_jid}
use ipop_tincan.Text.Fields.{Free}
use ipop_tincan.Controller.{Env, Effect, xmpp}
use ipop_tincan.Controller
use ipop_tincan.Controller.{other, lookup_rpc}
use ipop_tincan.Controller.Requests.{handle_message, dispatch, do_other}
use ipop_tincan.Manager.Types.{Address}
use ipop_tincan.Program.{
  Program, services, stanza, allocation_done, with_network, carry, carry_all, carry_xmpp, step,
}
use ipop_tincan.Program.Sound.{IsSound}
use ipop_tincan.Program.Wiring.{send_through-services}

-- A message of the tincan query.
abbrev pub message : Bytes → Bytes → Query
message text type = record { body = some text; type = some type }

process_start-message :
    (env : Env) (own text type : Bytes) (n : Network) (x : Stanza)
    → is_from_peer env.jids own x ≡ true
    → x.query ≡ some (message text type)
    → process_start env.jids own env.now n x
      ≡ some (remember x n, Xmpp.handle_peer (get_key x.from) text type ∷ [])
unfolding process_start process_peer read_query
process_start-message env own text type n x peer e = ground arith

-- A notice that the connection manager hands to the signal sender for overlay 0 or 1.
carry_all-local :
    (env : Env) (p : Program) (uid text type : Bytes)
    → p.services ≡ services
    → carry_all env p (send_to_peer 0 uid text type ∷ [])
      ≡ some (Controller.send_to_peer env p.controller uid text type)
unfolding carry_all carry
carry_all-local env p uid text type wired =
    rw ((send_through-services env p uid text type wired).0, append-nil) refl

carry_all-remote :
    (env : Env) (p : Program) (uid text type : Bytes)
    → p.services ≡ services
    → carry_all env p (send_to_peer 1 uid text type ∷ [])
      ≡ some (map xmpp (Xmpp.send_to_peer p.controller.network uid text type))
unfolding carry_all carry
carry_all-remote env p uid text type wired =
    rw ((send_through-services env p uid text type wired).1, append-nil) refl

handle_stanza-get : (x : Stanza) → x.is_tincan_get ≡ true → handle_stanza x ≡ true
unfolding handle_stanza
handle_stanza-get x h = ground arith

-- What a node with main's services makes of a tincan query of a peer, with data and a type.
on_stanza-message :
    (env : Env) (p : Program) (own text type : Bytes) (x : Stanza)
    → p.services ≡ services
    → is_from_peer env.jids own x ≡ true
    → x.query ≡ some (message text type)
    → on_stanza env own x p
      ≡ some (
        with_network p (remember x p.controller.network),
        Controller.send_to_peer env p.controller (get_key x.from) text type,
      )
unfolding on_stanza carry_xmpp Signals.handle_peer Controller.send_to_peer
on_stanza-message env p own text type x wired peer e =
    let q = with_network p (remember x p.controller.network) in
    rw
      (
        process_start-message env own text type p.controller.network x peer e,
        carry_all-local env q (get_key x.from) text type wired,
        append-nil,
      )
      refl

step-stanza :
    (env : Env) (p : Program) (own text type : Bytes) (x : Stanza)
    → p.services ≡ services
    → x.is_tincan_get ≡ true
    → is_from_peer env.jids own x ≡ true
    → x.query ≡ some (message text type)
    → step env (stanza own x) p
      ≡ some (
        with_network p (remember x p.controller.network),
        Controller.send_to_peer env p.controller (get_key x.from) text type,
      )
unfolding step
step-stanza env p own text type x wired get peer e =
    rw (handle_stanza-get x get) (on_stanza-message env p own text type x wired peer e)

-- When the candidates of a live link of overlay 1 are all there, a sound node whose session is open
-- and has the peer's JID sends that JID one stanza, of type con_resp, with the node's own fingerprint
-- and the candidates of the link, and changes nothing of its state.
pub step-allocation_done :
    (env : Env) (p : Program) (t : ℕ) (uid jid : Bytes) (peer : Peer)
    → IsSound p
    → find t p.controller.manager.transport_map ≡ some uid
    → find uid p.controller.manager.uid_map ≡ some peer
    → peer.overlay_id ≡ 1
    → p.controller.network.xmpp_state ≡ open_state
    → p.controller.network.tincan_task ≡ true
    → find uid p.controller.network.g_uid_map ≡ some jid
    → step env (allocation_done t) p
      ≡ some (
        p,
        xmpp (
              send_stanza jid
                (p.controller.manager.fingerprint ++ spaced peer.candidate_list)
                k_con_resp)
            ∷ [],
      )
unfolding step
step-allocation_done env p t uid jid peer s live there one opened task known =
    let (peer', there', e) =
      on_candidates_allocation_done-live p.controller.manager s.tables t uid live in
    let same : peer' ≡ peer = ground arith in
    let text = p.controller.manager.fingerprint ++ spaced peer.candidate_list in
    rw
      (
        e,
        same,
        one,
        carry_all-remote env p uid text k_con_resp s.wired,
        send_to_peer-known p.controller.network uid jid text k_con_resp opened task known,
      )
      refl

-- The controller hands a node a message for a peer: a request whose method is none of the node's own,
-- which names the peer and the data. The node's session is open and has the peer's JID.
pub record IsAsked (env : Env) (p : Program) (request method uid text jid : Bytes) : Type 0 where
  pub parsed : (env.parse request).0 ≡ true
  pub method_named : (env.parse request).1.as_string (codes "m") ≡ some method
  pub method_other : (lookup_rpc method p.controller.rpc_calls).0 ≡ other
  pub overlay : ℕ
  pub overlay_named : (env.parse request).1.as_int (codes "overlay_id") ≡ some overlay
  pub uid_named : (env.parse request).1.as_string (codes "uid") ≡ some uid
  pub text_named : (env.parse request).1.as_string (codes "data") ≡ some text
  pub opened : p.controller.network.xmpp_state ≡ open_state
  pub task : p.controller.network.tincan_task ≡ true
  pub known : find uid p.controller.network.g_uid_map ≡ some jid

handle_message-IsAsked :
    (env : Env) (p : Program) (request method uid text jid : Bytes) (addr : Address)
    → IsAsked env p request method uid text jid
    → handle_message env p.controller request addr
      ≡ some (
        record p.controller { rpc_calls = (lookup_rpc method p.controller.rpc_calls).1 },
        xmpp (send_stanza jid text method) ∷ [],
      )
unfolding handle_message dispatch do_other
handle_message-IsAsked env p request method uid text jid addr h =
    rw
      (
        h.method_named,
        h.method_other,
        h.overlay_named,
        h.uid_named,
        h.text_named,
        send_to_peer-known p.controller.network uid jid text method h.opened h.task h.known,
        h.parsed,
      )
      refl

remember-key :
    (x : Stanza) (key : Bytes) (n : Network)
    → get_key x.from ≡ key
    → remember x n ≡ record n { g_uid_map = insert key x.from n.g_uid_map }
unfolding remember
remember-key x key n e = rw e refl

pub handle_message-step :
    (here there : Env) (sender receiver : Program)
    → (request method uid payload jid own bare pcid suffix : Bytes) (addr : Address) (x : Stanza)
    → IsAsked here sender request method uid payload jid
    → receiver.services ≡ services
    → Free b'/' bare
    → length pcid ≡ 40
    → x.is_tincan_get ≡ true
    → x.from ≡ full_jid bare pcid suffix
    → is_from_peer there.jids own x ≡ true
    → x.query ≡ some (message payload method)
    → (handle_message here sender.controller request addr
        ≡ some (
          record sender.controller {
            rpc_calls = (lookup_rpc method sender.controller.rpc_calls).1;
          },
          xmpp (send_stanza jid payload method) ∷ [],
        ))
      × (jids : Map Bytes Bytes) × (o : Object) × (step there (stanza own x) receiver
          ≡ some (
            with_network receiver (record receiver.controller.network { g_uid_map = jids }),
            datagram there o receiver.controller.remote_addr,
          ))
      × (find pcid jids ≡ some x.from)
      × IsNotice o pcid payload method
handle_message-step here there sender receiver request method uid payload jid own bare pcid suffix
      addr x asked wired fr len get from peer e =
    let key : get_key x.from ≡ pcid = ap get_key from ∙ get_key-full_jid bare pcid suffix fr len in
    let jids = insert pcid x.from receiver.controller.network.g_uid_map in
    let (o, notice, sent) = send_to_peer-IsNotice there receiver.controller pcid payload method in
    (
      handle_message-IsAsked here sender request method uid payload jid addr asked,
      jids,
      o,
      step-stanza there receiver own payload method x wired get peer e
          ∙ rw (key, remember-key x pcid receiver.controller.network key, sent) refl,
      find-insert_self pcid x.from receiver.controller.network.g_uid_map,
      notice,
    )
