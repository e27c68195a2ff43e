-- ===== src/Manager/Report/Networks.antt =====
-- OnNetworksChanged and the addresses of the tap device.
use ipop_tincan.Prelude.{◌≡◌, refl, true, false, List, [], ◌∷◌, arith, Bytes}
use ipop_tincan.Manager.{Manager}
use ipop_tincan.Manager.Report.{Network, is_tap_network, on_networks_changed}

-- Network by network: a tap device has the one address and its old names, any other is unchanged.
abbrev pub AllSettled : Bytes → Bytes → List Network → List Network → Type 0
AllSettled tap ip [] [] = Unit {0}
AllSettled tap ip [] (n ∷ networks) = ⊥
AllSettled tap ip (n ∷ networks) [] = ⊥
AllSettled tap ip (n ∷ networks) (n' ∷ networks') =
    (is_tap_network tap n ≡ true → n' ≡ record n { ips = ip ∷ [] })
    × (is_tap_network tap n ≡ false → n' ≡ n)
    × AllSettled tap ip networks networks'

on_networks_changed-AllSettled :
    (ip_of : Bytes → Bytes) (tap : Bytes) (m : Manager) (networks : List Network)
    → AllSettled tap (ip_of m.tincan_ip6) networks (on_networks_changed ip_of tap m networks)
unfolding on_networks_changed
on_networks_changed-AllSettled ip_of tap m [] = tt
on_networks_changed-AllSettled ip_of tap m (n ∷ networks) =
    (λ h. ground arith, λ h. ground arith, on_networks_changed-AllSettled ip_of tap m networks)

is_tap_network-ips :
    (tap : Bytes) (n : Network) (ips : List Bytes)
    → is_tap_network tap (record n { ips = ips }) ≡ is_tap_network tap n
unfolding is_tap_network
is_tap_network-ips tap n ips = refl

on_networks_changed_twice :
    (ip_of : Bytes → Bytes) (tap : Bytes) (m : Manager) (ns : List Network)
    → on_networks_changed ip_of tap m (on_networks_changed ip_of tap m ns)
      ≡ on_networks_changed ip_of tap m ns
unfolding on_networks_changed
on_networks_changed_twice ip_of tap m [] = refl
on_networks_changed_twice ip_of tap m (n ∷ ns) = ground (
  arith,
  on_networks_changed_twice ip_of tap m ns,
  is_tap_network-ips tap n (ip_of m.tincan_ip6 ∷ []),
)

-- OnNetworksChanged gives every network of the tap's name, or whose description begins with "TAP",
-- the manager's own IPv6 address alone, and leaves every other network as it was; a second call
-- changes nothing more.
pub on_networks_changed_idempotent :
    (ip_of : Bytes → Bytes) (tap : Bytes) (m : Manager) (networks : List Network)
    → let after = on_networks_changed ip_of tap m networks in
      AllSettled tap (ip_of m.tincan_ip6) networks after
      × (on_networks_changed ip_of tap m after ≡ after)
on_networks_changed_idempotent ip_of tap m networks = (
  on_networks_changed-AllSettled ip_of tap m networks,
  on_networks_changed_twice ip_of tap m networks,
)
