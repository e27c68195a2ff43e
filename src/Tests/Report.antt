-- ===== src/Tests/Report.antt =====
-- Reports of the node of the sample, whose one link is online.
use ipop_tincan.Prelude.{
  ℕ, ◌+◌, ◌/◌, ◌%◌, ◌^◌, ◌≡◌, refl, true, some, List, [], ◌∷◌, map, arith, codes, nat_eq, bytes_eq,
}
use ipop_tincan.Table.{Table}
use ipop_tincan.JsonObject.{Object}
use ipop_tincan.Manager.Types.{inet6}
use ipop_tincan.Manager.Report.{get_state, Reporter, Network, elapsed}
use ipop_tincan.Manager.Report.Clock.{elapsed_exact}
use ipop_tincan.Manager.Report.States.{AllSay}
use ipop_tincan.Controller.{Env, send_v6}
use ipop_tincan.Controller.State.{friends_of, send_state}
use ipop_tincan.Controller.Answers.{SaysOwn, object_frame, peer_frame, send_state_total}
use ipop_tincan.Tests.Sample.{peer_uid, other_uid}
use ipop_tincan.Tests.Requests.{linked-IsWired, env, controller, local}

elapsed_exact_example : elapsed ((4294967000 + 5000) % 2 ^ 32) (4294967000 % 2 ^ 32) ≡ 5000 / 1000
elapsed_exact_example = elapsed_exact 4294967000 5000 (omega arith)

abbrev reporter : Reporter
reporter = record { time = 9; address_text = λ a. a.host; stats = λ c. [] }

abbrev friends : Table ℕ
friends = (peer_uid, 5) ∷ (other_uid, 7) ∷ []

abbrev env6 : Env
env6 = record env { family = λ a. inet6 }

send_state_total_example :
    (own : Object) × (peers : Table Object) × (get_state env6.reporter env6.net controller.manager
        (friends_of env6 controller peer_uid)
        true
      ≡ some peers)
    × (send_state env6 controller peer_uid true local
        ≡ some (
            send_v6 local (object_frame env6 own)
            ∷ map (λ p. send_v6 local (peer_frame env6 p)) peers))
    × SaysOwn own controller
    × AllSay env6.reporter env6.net controller.manager (friends_of env6 controller peer_uid) peers
send_state_total_example = send_state_total env6 controller peer_uid true local linked-IsWired refl

abbrev networks : List Network
networks =
    record { name = codes "ipop"; description = codes "d"; ips = codes "10.0.0.1" ∷ [] }
    ∷ record { name = codes "eth0"; description = codes "e"; ips = codes "10.0.0.2" ∷ [] }
    ∷ []
