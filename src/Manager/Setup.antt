-- ===== src/Manager/Setup.antt =====
-- TinCanConnectionManager::Setup and AddIPMapping: the node's own identity, and the addresses of its
-- peers.
pub mod Once
use ipop_tincan.Prelude.{
  ℕ, Bool, true, false, not, ◌||◌, Option, none, some, List, [], ◌∷◌, ◌++◌, Bytes, codes, nat_eq,
  bytes_eq, ◌==◌, nat_beq, length, if◌then◌else◌,
}
use ipop_tincan.Map.{insert, has}
use ipop_tincan.Text.{is_empty}
use ipop_tincan.Wire.{k_id_size}
use ipop_tincan.Manager.{Manager, Libjingle, k_id_bytes_len}
use ipop_tincan.Manager.Types.{
  Call, tap_set_ipv4_addr, tap_set_ipv6_addr, tap_set_mtu, tap_set_base_flags, tap_set_up,
  tap_unset_noarp_flags, peerlist_set_local, set_subnet_mask, override_base_ipv4_addr,
  peerlist_add_by_uid, peerlist_add,
}

abbrev pub or_else {ℓ} : {A : Type ℓ} → Option A → A → A
or_else none d = d
or_else (some a) d = a

-- The calls of a Linux build, each of which must return 0 (the code asserts it). tap_set_mtu,
-- tap_set_base_flags and tap_set_up are joined by `|`, which leaves their order to the compiler.
pub setup_calls : Libjingle → Bytes → Bytes → ℕ → Bytes → ℕ → ℕ → ℕ → List Call
setup_calls lib uid ip4 ip4_mask ip6 ip6_mask subnet_mask switchmode =
    (tap_set_ipv4_addr ip4 ip4_mask
      ∷ tap_set_ipv6_addr ip6 ip6_mask
      ∷ tap_set_mtu
      ∷ tap_set_base_flags
      ∷ tap_set_up
      ∷ [])
    ++ (if nat_beq switchmode 0 then [] else tap_unset_noarp_flags ∷ [])
    ++ peerlist_set_local (lib.hex_decode k_id_bytes_len uid) ip4 ip6
      ∷ set_subnet_mask ip4_mask subnet_mask
      ∷ []

unfoldable pub setup :
    Libjingle → Manager → Bytes → Bytes → ℕ → Bytes → ℕ → ℕ → ℕ → Manager × List Call
setup lib m uid ip4 ip4_mask ip6 ip6_mask subnet_mask switchmode =
    if not (is_empty m.tincan_id) || not (nat_beq (length uid) k_id_size) then (m, []) else (
      record m {
        tincan_id = uid;
        local_fingerprint = lib.create_fingerprint uid;
        fingerprint = or_else (lib.create_fingerprint uid) m.fingerprint;
        tincan_ip4 = ip4;
        tincan_ip6 = ip6;
      },
      setup_calls lib uid ip4 ip4_mask ip6 ip6_mask subnet_mask switchmode,
    )

unfoldable pub k_loopback : Bytes
k_loopback = codes "127.0.0.1"

unfoldable pub add_ip_mapping :
    Libjingle → Manager → Bytes → Bytes → Bytes → Manager × Bool × List Call
add_ip_mapping lib m uid ip4 ip6 =
    if is_empty ip4 || is_empty ip6 || not (nat_beq (length uid) k_id_size) || has uid m.ip_map
    then (m, false, [])
    else (
      record m { ip_map = insert uid (record { ip4 = ip4; ip6 = ip6 }) m.ip_map },
      true,
      override_base_ipv4_addr ip4
          ∷ (if ip4 == k_loopback
              then peerlist_add_by_uid (lib.hex_decode k_id_bytes_len uid)
              else peerlist_add (lib.hex_decode k_id_bytes_len uid) ip4 ip6)
          ∷ [],
    )
