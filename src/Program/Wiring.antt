-- ===== src/Program/Wiring.antt =====
-- What main connects: where the connection manager's messages go.
use ipop_tincan.Prelude.{ℕ, ◌≤◌, ◌≡◌, ◌∙◌, none, some, arith, Bytes, nat_eq, bytes_eq, map}
use ipop_tincan.Map.{Map, find, empty, insert, find-insert_self, find-insert_ne, find-empty}
use ipop_tincan.Xmpp
use ipop_tincan.Xmpp.{XmppCall}
use ipop_tincan.Controller
use ipop_tincan.Controller.{Env, Effect, libjingle, xmpp}
use ipop_tincan.Program.{
  Program, controller_access, xmpp_network, add_service, Service, services, send_through,
}

services-find :
    (overlay_id : ℕ)
    → (find 0 services ≡ some controller_access)
      × (find 1 services ≡ some xmpp_network)
      × (2 ≤ overlay_id → find overlay_id services ≡ none)
unfolding services add_service
services-find overlay_id =
    let one : Map ℕ Service = insert 0 controller_access empty in
    (
      find-insert_ne 1 0 xmpp_network one (λ p. omega arith)
          ∙ find-insert_self 0 controller_access empty,
      find-insert_self 1 xmpp_network one,
      λ h.
          find-insert_ne 1 overlay_id xmpp_network one (λ p. omega arith)
          ∙ find-insert_ne 0 overlay_id controller_access empty (λ p. omega arith)
          ∙ find-empty overlay_id,
    )

-- With main's services a message for overlay 0 goes to the controller, one for overlay 1 goes out
-- over XMPP, and one for any other overlay makes the program call through a null pointer.
pub send_through-services :
    (env : Env) (p : Program) (uid text type : Bytes)
    → p.services ≡ services
    → (send_through env p 0 uid text type
        ≡ some (Controller.send_to_peer env p.controller uid text type))
      × (send_through env p 1 uid text type
          ≡ some (map xmpp (Xmpp.send_to_peer p.controller.network uid text type)))
      × ((overlay_id : ℕ) → 2 ≤ overlay_id → send_through env p overlay_id uid text type ≡ none)
unfolding send_through
send_through-services env p uid text type wired = (
  let (a, b, c) = services-find 0 in ground (arith, wired, a),
  let (a, b, c) = services-find 0 in ground (arith, wired, b),
  λ overlay_id h. let (a, b, c) = services-find overlay_id in ground (arith, wired, c),
)
