-- ===== src/Controller/State.antt =====
-- ControllerAccess::SendState.
use ipop_tincan.Prelude.{
  ℕ, ◌+◌, ◌/◌, ◌%◌, Bool, Option, List, [], ◌∷◌, ◌++◌, Bytes, codes, ltb, take, ◌>>=◌, pure,
  if◌then◌else◌,
}
use ipop_tincan.Text.{is_empty}
use ipop_tincan.Table.{Table}
use ipop_tincan.JsonObject.{Object, set_text}
use ipop_tincan.Manager.Types.{Address}
use ipop_tincan.Manager.Report.{get_state}
use ipop_tincan.Controller.{Env, Controller, Effect, send_to}

-- A byte as two hexadecimal digits in lower case.
abbrev pub hex_digit : ℕ → ℕ
hex_digit d = if ltb d 10 then 48 + d else 87 + d

abbrev pub hex_byte : ℕ → Bytes
hex_byte b = hex_digit (b % 256 / 16) ∷ hex_digit (b % 16) ∷ []

-- The six bytes with colons between them.
unfoldable pub mac_text : Bytes → Bytes
mac_text [] = []
mac_text (b ∷ []) = hex_byte b
mac_text (b ∷ c ∷ bs) = hex_byte b ++ b':' ∷ mac_text (c ∷ bs)

unfoldable pub local_state : Controller → Object
unfolding mac_text
local_state c = set_text (codes "_mac") (mac_text (take 6 c.mac)) (
    set_text (codes "type") (codes "local_state") (
      set_text (codes "_fpr") c.manager.fingerprint (
        set_text (codes "_ip6") c.manager.tincan_ip6 (
          set_text (codes "_ip4") c.manager.tincan_ip4
            (set_text (codes "_uid") c.manager.tincan_id [])))))

unfoldable pub send_peers : Env → Address → Table Object → List Effect
send_peers env addr [] = []
send_peers env addr ((uid, peer) ∷ peers) =
    send_to env (env.styled (set_text (codes "type") (codes "peer_state") peer)) addr
    ++ send_peers env addr peers

-- The one friend that is asked for, or all.
abbrev pub friends_of : Env → Controller → Bytes → Table ℕ
friends_of env c uid = if is_empty uid then c.network.presence_time else (uid, env.now) ∷ []

unfoldable pub send_state : Env → Controller → Bytes → Bool → Address → Option (List Effect)
unfolding local_state send_peers
send_state env c uid get_stats addr = do
  peers ← get_state env.reporter env.net c.manager (friends_of env c uid) get_stats
  pure (send_to env (env.styled (local_state c)) addr ++ send_peers env addr peers)
