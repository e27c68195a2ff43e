-- ===== src/Controller/Notices.antt =====
-- ControllerAccess::SendToPeer, the slot for messages of peers: the datagram to the controller.
use ipop_tincan.Prelude.{◌≡◌, refl, some, List, [], ◌∷◌, Bytes, codes, nat_eq, bytes_eq}
use ipop_tincan.JsonObject.{Object, member, scalar, text, set_member, set_text}
use ipop_tincan.Wire.{frame}
use ipop_tincan.Manager.Types.{Address, inet, inet6, unspecified}
use ipop_tincan.Controller.{Env, Effect, Controller, send_v4, send_v6, send_to, send_to_peer}

-- An object that names a peer, what it says, and the type of that.
pub record IsNotice (o : Object) (uid payload type : Bytes) : Type 0 where
  pub has_uid : member (codes "uid") o ≡ some (scalar (text uid))
  pub has_data : member (codes "data") o ≡ some (scalar (text payload))
  pub has_type : member (codes "type") o ≡ some (scalar (text type))

-- An object as a datagram of version 3 and type 1, over the socket of the address's family.
abbrev pub datagram : Env → Object → Address → List Effect
datagram env o addr = elim (env.family addr) [
  | inet ↦ send_v4 addr (3 ∷ 1 ∷ env.styled o) ∷ []
  | inet6 ↦ send_v6 addr (3 ∷ 1 ∷ env.styled o) ∷ []
  | unspecified ↦ []
]

-- SendToPeer sends one such object to the controller's address.
pub send_to_peer-IsNotice :
    (env : Env) (c : Controller) (uid payload type : Bytes)
    → (o : Object) × IsNotice o uid payload type
      × (send_to_peer env c uid payload type ≡ datagram env o c.remote_addr)
unfolding send_to_peer send_to frame member set_member
send_to_peer-IsNotice env c uid payload type =
    let o =
      set_text (codes "type") type
        (set_text (codes "data") payload (set_text (codes "uid") uid [])) in
    (o, record { has_uid = refl; has_data = refl; has_type = refl }, refl)
