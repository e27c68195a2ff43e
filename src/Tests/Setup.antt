-- ===== src/Tests/Setup.antt =====
-- Two calls of Setup and two of AddIPMapping.
use ipop_tincan.Prelude.{◌≡◌, refl, true, [], Bytes, codes, bytes_eq, replicate}
use ipop_tincan.Map.{find, empty}
use ipop_tincan.Manager.{Manager, init}
use ipop_tincan.Manager.Setup.{setup, add_ip_mapping}
use ipop_tincan.Manager.Setup.Once.{setup_once}
use ipop_tincan.Tests.Sample.{lib, start, peer_uid}

abbrev own : Bytes
own = replicate 40 97

abbrev ready : Manager
ready = (setup lib start own (codes "10.0.0.1") 24 (codes "fd::1") 64 16 1).0

no_id : start.tincan_id ≡ []
unfolding init
no_id = refl

setup_once_example :
    (ready.tincan_id ≡ own) × (setup lib ready peer_uid [] 1 [] 2 3 0 ≡ (ready, []))
setup_once_example =
    setup_once lib start own (codes "10.0.0.1") 24 (codes "fd::1") 64 16 1 peer_uid [] 1 [] 2 3 0
      no_id refl

abbrev mapped : Manager
mapped = (add_ip_mapping lib start peer_uid (codes "10.0.0.2") (codes "fd::2")).0

added : (add_ip_mapping lib start peer_uid (codes "10.0.0.2") (codes "fd::2")).1 ≡ true
unfolding add_ip_mapping init find empty
added = refl
