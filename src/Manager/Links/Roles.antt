-- ===== src/Manager/Links/Roles.antt =====
-- What the two ends of a link ask of libjingle in SetupTransport.
use ipop_tincan.Prelude.{◌≡◌, ◌≢◌, ◌⊎◌, [], ◌∷◌, arith}
use ipop_tincan.Text.Order.{compare_bytes-flip, eq_of_compare_bytes}
use ipop_tincan.Manager.{Manager, Libjingle}
use ipop_tincan.Manager.Links.{
  setup_transport, local_description, remote_description, conn_role, is_controlling,
}
use ipop_tincan.Manager.Types.{
  Peer, actpass, active, controlling, controlled, offer, answer, set_ice_tiebreaker, set_ice_role,
  set_local_description, set_remote_description,
}

-- The controlling end: its own description is the offer, and it leaves the DTLS role open.
abbrev pub Offers : Libjingle → Manager → Peer → Type 0
Offers lib m p =
    ((setup_transport lib m p).1
      ≡ set_ice_tiebreaker p.transport m.tiebreaker
        ∷ set_ice_role p.transport controlling
        ∷ set_local_description p.transport (local_description m p) offer
        ∷ set_remote_description p.transport (remote_description lib p) answer
        ∷ [])
    × ((local_description m p).role ≡ actpass)

-- The controlled end: the peer's description is the offer, and it is the active DTLS side.
abbrev pub Answers : Libjingle → Manager → Peer → Type 0
Answers lib m p =
    ((setup_transport lib m p).1
      ≡ set_ice_tiebreaker p.transport m.tiebreaker
        ∷ set_ice_role p.transport controlled
        ∷ set_remote_description p.transport (remote_description lib p) offer
        ∷ set_local_description p.transport (local_description m p) answer
        ∷ [])
    × ((local_description m p).role ≡ active)

-- Two nodes with distinct ids, each holding a peer with the other's id, take opposite parts: one
-- offers and the other answers.
pub setup_transport-opposite :
    (lib lib' : Libjingle) (m n : Manager) (p q : Peer)
    → p.uid ≡ n.tincan_id
    → q.uid ≡ m.tincan_id
    → m.tincan_id ≢ n.tincan_id
    → (Offers lib m p × Answers lib' n q) ⊎ (Answers lib m p × Offers lib' n q)
unfolding setup_transport local_description conn_role is_controlling
setup_transport-opposite lib lib' m n p q hp hq ne =
    ground (arith, compare_bytes-flip p.uid m.tincan_id, eq_of_compare_bytes p.uid m.tincan_id)
