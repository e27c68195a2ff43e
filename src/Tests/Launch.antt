-- ===== src/Tests/Launch.antt =====
-- A start of the program without arguments, on a computer where both sockets can be bound.
use ipop_tincan.Prelude.{◌≡◌, ◌↔◌, Bool, true, some, [], ◌∷◌, codes}
use ipop_tincan.Manager.Types.{Address}
use ipop_tincan.Program.{Program, main}
use ipop_tincan.Program.Launch.{launch, all_calls, starts_threads, Listens}
use ipop_tincan.Program.Launch.Starts.{launch-main}
use ipop_tincan.Tests.Program.{mac, chance, begun}

abbrev bound : Address → Bool
bound a = true

launch-main_example :
    ((launch (codes "ipop-tincan" ∷ []) (some mac) bound (some []) chance
        ≡ (all_calls begun, some begun))
      ↔ (main (codes "ipop-tincan" ∷ []) (some mac) (some []) chance ≡ some begun)
        × Listens bound begun.udp_port)
    × ((starts_threads (launch (codes "ipop-tincan" ∷ []) (some mac) bound (some []) chance).0
          ≡ true)
        ↔ ((q : Program) × (main (codes "ipop-tincan" ∷ []) (some mac) (some []) chance ≡ some q)
            × Listens bound q.udp_port))
launch-main_example = launch-main (codes "ipop-tincan" ∷ []) (some mac) bound (some []) chance begun
