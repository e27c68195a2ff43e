-- ===== src/Controller/Answers.antt =====
-- ControllerAccess::SendState: what the controller gets for a request of the state.
use ipop_tincan.Prelude.{
  ◌≡◌, refl, Bool, some, [], ◌∷◌, map, take, ap, ◌++◌, arith, Bytes, codes, bytes_eq, nat_eq,
}
use ipop_tincan.Table.{Table}
use ipop_tincan.JsonObject.{Object, member, set_member, scalar, text, set_text}
use ipop_tincan.Manager.Candidates.{join}
use ipop_tincan.Manager.Report.{get_state}
use ipop_tincan.Wire.{frame}
use ipop_tincan.Manager.Types.{Address, inet6}
use ipop_tincan.Manager.Report.States.{IsWired, AllSay, get_state_total}
use ipop_tincan.Controller.{Env, Controller, send_v6, send_to}
use ipop_tincan.Controller.State.{
  hex_byte, mac_text, local_state, send_peers, friends_of, send_state,
}

-- The datagram with an object.
abbrev pub object_frame : Env → Object → Bytes
object_frame env o = 3 ∷ 1 ∷ env.styled o

abbrev pub peer_frame : Env → Bytes × Object → Bytes
peer_frame env (uid, peer) = object_frame env (set_text (codes "type") (codes "peer_state") peer)

send_to-inet6 :
    (env : Env) (s : Bytes) (addr : Address)
    → env.family addr ≡ inet6
    → send_to env s addr ≡ send_v6 addr (3 ∷ 1 ∷ s) ∷ []
unfolding send_to frame
send_to-inet6 env s addr h = ground arith

send_peers-inet6 :
    (env : Env) (addr : Address) (peers : Table Object)
    → env.family addr ≡ inet6
    → send_peers env addr peers ≡ map (λ p. send_v6 addr (peer_frame env p)) peers
unfolding send_peers
send_peers-inet6 env addr [] h = refl
send_peers-inet6 env addr ((uid, peer) ∷ peers) h =
    rw
      (
        send_to-inet6 env (env.styled (set_text (codes "type") (codes "peer_state") peer)) addr h,
        send_peers-inet6 env addr peers h,
      )
      refl

-- What the node says of itself: its id, addresses and fingerprint, that this is its own state, and
-- the six bytes of its MAC address in hexadecimal, with colons between them.
pub record SaysOwn (o : Object) (c : Controller) : Type 0 where
  pub has_uid : member (codes "_uid") o ≡ some (scalar (text c.manager.tincan_id))
  pub has_ip4 : member (codes "_ip4") o ≡ some (scalar (text c.manager.tincan_ip4))
  pub has_ip6 : member (codes "_ip6") o ≡ some (scalar (text c.manager.tincan_ip6))
  pub has_fpr : member (codes "_fpr") o ≡ some (scalar (text c.manager.fingerprint))
  pub has_type : member (codes "type") o ≡ some (scalar (text (codes "local_state")))
  pub has_mac : member (codes "_mac") o ≡ some (scalar (text (join (map hex_byte (take 6 c.mac)))))

mac_text-join : (bs : Bytes) → mac_text bs ≡ join (map hex_byte bs)
unfolding mac_text
mac_text-join [] = refl
mac_text-join (b ∷ []) = refl
mac_text-join (b ∷ c ∷ bs) = ap (λ s. hex_byte b ++ b':' ∷ s) (mac_text-join (c ∷ bs))

local_state-SaysOwn : (c : Controller) → SaysOwn (local_state c) c
unfolding local_state member set_member
local_state-SaysOwn c = record {
  has_uid = refl;
  has_ip4 = refl;
  has_ip6 = refl;
  has_fpr = refl;
  has_type = refl;
  has_mac = rw (mac_text-join (take 6 c.mac)) refl;
}

pub send_state_total :
    (env : Env) (c : Controller) (uid : Bytes) (get_stats : Bool) (addr : Address)
    → IsWired env.net c.manager
    → env.family addr ≡ inet6
    → (own : Object) × (peers : Table Object) × (get_state env.reporter env.net c.manager
          (friends_of env c uid)
          get_stats
        ≡ some peers)
      × (send_state env c uid get_stats addr
          ≡ some (
              send_v6 addr (object_frame env own)
              ∷ map (λ p. send_v6 addr (peer_frame env p)) peers))
      × SaysOwn own c
      × AllSay env.reporter env.net c.manager (friends_of env c uid) peers
unfolding send_state
send_state_total env c uid get_stats addr wired h =
    let (peers, made, says) =
      get_state_total env.reporter env.net c.manager (friends_of env c uid) get_stats wired in
    let own = send_to-inet6 env (env.styled (local_state c)) addr h in
    let all = send_peers-inet6 env addr peers h in
    (local_state c, peers, made, ground (arith, made, own, all), local_state-SaysOwn c, says)
