-- ===== src/Tests/Start.antt =====
-- A node with interfaces in 172.31 and 172.30.
use ipop_tincan.Prelude.{◌≤◌, ◌≡◌, refl, true, false, some, List, [], ◌∷◌, arith, codes, ℕ}
use ipop_tincan.Manager.{k_ipv4}
use ipop_tincan.Start.{Interface, free_ip, strncmp_eq}
use ipop_tincan.Start.Octets.{shows, lowest, shows_unique}
use ipop_tincan.Start.Free.{address, at, AllShow, IsDescending, free_ip-free, free_ip-taken}

abbrev interfaces : List Interface
interfaces = at (codes "31.") (codes "0.7") ∷ at (codes "30.") (codes "1.1") ∷ []

interfaces-IsDescending : IsDescending interfaces
interfaces-IsDescending = ((below, tt), (tt, tt))
  where
    below :
        (a b : ℕ)
        → shows a (at (codes "31.") (codes "0.7")) ≡ true
        → shows b (at (codes "30.") (codes "1.1")) ≡ true
        → b ≤ a
    below a b h k =
        let high =
          shows_unique a 31 (at (codes "31.") (codes "0.7")) h (unfold strncmp_eq in refl) in
        let low =
          shows_unique b 30 (at (codes "30.") (codes "1.1")) k (unfold strncmp_eq in refl) in
        omega arith

free_ip-free_example :
    (free_ip (some interfaces) k_ipv4 ≡ some (address (lowest 31 interfaces)))
    × AllShow (lowest 31 interfaces) false interfaces
free_ip-free_example = free_ip-free interfaces (omega arith) interfaces-IsDescending

free_ip-taken_example :
    (free_ip (some (at (codes "30.") (codes "1.1") ∷ at (codes "31.") (codes "0.7") ∷ [])) k_ipv4
      ≡ some (codes "172.30.0.100"))
    × (shows 30 (at (codes "30.") (codes "1.1")) ≡ true)
free_ip-taken_example = free_ip-taken (codes "1.1") (codes "0.7")
