-- ===== src/Manager/Setup/Once.antt =====
-- Setup and AddIPMapping, called again.
use ipop_tincan.Prelude.{ℕ, ◌≡◌, true, false, some, [], ◌∷◌, Bytes, bytes_eq, arith, length}
use ipop_tincan.Map.{find, insert, find-insert_self}
use ipop_tincan.Wire.{k_id_size}
use ipop_tincan.Manager.{Manager, Libjingle}
use ipop_tincan.Manager.Types.{PeerIps}
use ipop_tincan.Manager.Setup.{setup, add_ip_mapping}

setup-refused :
    (lib : Libjingle) (m : Manager) (uid ip4 : Bytes) (a : ℕ) (ip6 : Bytes) (b s w : ℕ) (x : ℕ)
    (id : Bytes)
    → m.tincan_id ≡ x ∷ id
    → setup lib m uid ip4 a ip6 b s w ≡ (m, [])
unfolding setup
setup-refused lib m uid ip4 a ip6 b s w x id h = ground arith

setup-tincan_id :
    (lib : Libjingle) (m : Manager) (uid ip4 : Bytes) (a : ℕ) (ip6 : Bytes) (b s w : ℕ)
    → m.tincan_id ≡ []
    → length uid ≡ k_id_size
    → (setup lib m uid ip4 a ip6 b s w).0.tincan_id ≡ uid
unfolding setup
setup-tincan_id lib m uid ip4 a ip6 b s w h k = ground arith

-- After a Setup with an id of forty characters, on a manager that has no id yet, the id is that
-- one, and every later Setup changes nothing and makes no call.
pub setup_once :
    (lib : Libjingle) (m : Manager) (uid ip4 : Bytes) (a : ℕ) (ip6 : Bytes) (b s w : ℕ)
    (uid' ip4' : Bytes) (a' : ℕ) (ip6' : Bytes) (b' s' w' : ℕ)
    → m.tincan_id ≡ []
    → length uid ≡ k_id_size
    → let m' = (setup lib m uid ip4 a ip6 b s w).0 in
      (m'.tincan_id ≡ uid) × (setup lib m' uid' ip4' a' ip6' b' s' w' ≡ (m', []))
setup_once lib m [] ip4 a ip6 b s w uid' ip4' a' ip6' b' s' w' h k = absurd (omega arith)
setup_once lib m (x ∷ id) ip4 a ip6 b s w uid' ip4' a' ip6' b' s' w' h k =
    let e = setup-tincan_id lib m (x ∷ id) ip4 a ip6 b s w h k in
    (e, setup-refused lib _ uid' ip4' a' ip6' b' s' w' x id e)

add_ip_mapping-ip_map :
    (lib : Libjingle) (m : Manager) (uid ip4 ip6 : Bytes)
    → (add_ip_mapping lib m uid ip4 ip6).1 ≡ true
    → (add_ip_mapping lib m uid ip4 ip6).0.ip_map
      ≡ insert uid (record { ip4 = ip4; ip6 = ip6 }) m.ip_map
unfolding add_ip_mapping
add_ip_mapping-ip_map lib m uid ip4 ip6 h = ground arith

add_ip_mapping-refused :
    (lib : Libjingle) (m : Manager) (uid ip4 ip6 : Bytes) (ips : PeerIps)
    → find uid m.ip_map ≡ some ips
    → add_ip_mapping lib m uid ip4 ip6 ≡ (m, false, [])
unfolding add_ip_mapping
add_ip_mapping-refused lib m uid ip4 ip6 ips h = ground arith

-- Once AddIPMapping has returned true for an id, the id has the two addresses of that call, and
-- every later AddIPMapping for the id returns false, changes nothing and makes no call.
pub add_ip_mapping_once :
    (lib : Libjingle) (m : Manager) (uid ip4 ip6 ip4' ip6' : Bytes)
    → (add_ip_mapping lib m uid ip4 ip6).1 ≡ true
    → let m' = (add_ip_mapping lib m uid ip4 ip6).0 in
      (find uid m'.ip_map ≡ some (record { ip4 = ip4; ip6 = ip6 }))
      × (add_ip_mapping lib m' uid ip4' ip6' ≡ (m', false, []))
add_ip_mapping_once lib m uid ip4 ip6 ip4' ip6' h =
    let ips : PeerIps = record { ip4 = ip4; ip6 = ip6 } in
    let e = add_ip_mapping-ip_map lib m uid ip4 ip6 h in
    let there : find uid (add_ip_mapping lib m uid ip4 ip6).0.ip_map ≡ some ips =
      rw e (find-insert_self uid ips m.ip_map) in
    (there, add_ip_mapping-refused lib _ uid ip4' ip6' ips there)
