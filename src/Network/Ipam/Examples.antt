-- ===== src/Network/Ipam/Examples.antt =====
-- Two replicas on one host, whose instance network is 10.1.3.0/24.
use innerstack.Prelude.{
  ◌≡◌, refl, ◌≢◌, true, false, bytes, [], ◌∷◌, none, some, Text, text_eq, text_eq_iff, sym, ◌∙◌,
  arith, text_key, number_key,
}
use innerstack.Prelude.Int.{pos}
use innerstack.Prelude.Map.{lookup, insert}
use innerstack.Decimal.{decimal, decimal_fuel}
use innerstack.Inet.{uint32_to_ipv4, uint32_to_bytes, ip4_to_string}
use innerstack.Network.Scan.{first_from}
use innerstack.Network.Ipam.{
  ZoneHost, NetworkManager, empty_map, instances, flush, host_net, replica_key, has_owner,
  is_vacant, take_address, write_address, alloc_address, alloc_host_sub_network,
}
use innerstack.Network.Ipam.Alloc.{IsAllocated, alloc_host_sub_network-IsAllocated}
use innerstack.Network.Ipam.Ownership.{
  HasWords, HasWords-All, alloc_host_sub_network_keeps, alloc_host_sub_network_distinct,
}

abbrev host_id : Text
host_id = bytes "h1"

abbrev host1 : ZoneHost
host1 = record { id = host_id; bridge = 167_837_955; instance_net = 167_838_464; peer = 1 }

abbrev manager : NetworkManager
manager = record {
  zone_map = some (record empty_map { vpc_bridge_host = (167_837_955, host1) ∷ [] });
  version = 1;
  bridge = 167_837_952;
  instance_net = 167_837_696;
  host_peer_ipv4 = [];
  hosts = (host_id, 167_837_955) ∷ [];
  changed = false;
  zone_name = bytes "z1";
  ready = true;
  stored = none;
}

abbrev run : Text → NetworkManager → Text × NetworkManager
run name s = alloc_host_sub_network (pos 9) (some 2) host_id name 0 s

abbrev after : NetworkManager
after = (run (bytes "web") manager).1

first_ip : (run (bytes "web") manager).0 ≡ bytes "10.1.3.3"
unfolding alloc_host_sub_network alloc_address take_address write_address is_vacant has_owner
    replica_key host_net flush first_from lookup insert decimal decimal_fuel uint32_to_ipv4
    uint32_to_bytes ip4_to_string text_eq
first_ip = refl

second_ip : (run (bytes "db") after).0 ≡ bytes "10.1.3.4"
unfolding alloc_host_sub_network alloc_address take_address write_address is_vacant has_owner
    replica_key host_net flush first_from lookup insert decimal decimal_fuel uint32_to_ipv4
    uint32_to_bytes ip4_to_string text_eq
second_ip = refl

first_ok : (run (bytes "web") manager).0 ≢ []
first_ok = rw first_ip (λ p. cc)

second_ok : (run (bytes "db") after).0 ≢ []
second_ok = rw second_ip (λ p. cc)

manager-HasWords : HasWords manager
manager-HasWords = HasWords-All manager (omega arith, tt)

keys_differ_test : text_eq (replica_key (bytes "web") 0) (replica_key (bytes "db") 0) ≡ false
unfolding replica_key decimal decimal_fuel text_eq
keys_differ_test = refl

keys_differ : replica_key (bytes "web") 0 ≢ replica_key (bytes "db") 0
keys_differ = λ p. let q : true ≡ false = sym ((text_eq_iff _ _).1 p) ∙ keys_differ_test in cc

web_address : lookup 167_838_467 (instances after) ≡ some (replica_key (bytes "web") 0)
unfolding alloc_host_sub_network alloc_address take_address write_address is_vacant has_owner
    host_net flush first_from lookup insert text_eq
web_address = refl

alloc_host_sub_network-IsAllocated_example :
    IsAllocated manager host_id (replica_key (bytes "web") 0) (run (bytes "web") manager).0 after
alloc_host_sub_network-IsAllocated_example =
    alloc_host_sub_network-IsAllocated (pos 9) (some 2) host_id (bytes "web") 0 manager first_ok

alloc_host_sub_network_keeps_example :
    lookup 167_838_467 (instances (run (bytes "db") after).1) ≡ some (replica_key (bytes "web") 0)
alloc_host_sub_network_keeps_example =
    alloc_host_sub_network_keeps (pos 9) (some 2) host_id (bytes "db") 0 after 167_838_467
      (replica_key (bytes "web") 0) web_address

alloc_host_sub_network_distinct_example : (run (bytes "web") manager).0 ≢ (run (bytes "db") after).0
alloc_host_sub_network_distinct_example =
    alloc_host_sub_network_distinct (pos 9) (pos 9) (some 2) (some 2) host_id host_id (bytes "web")
      (bytes "db") 0 0 manager manager-HasWords keys_differ first_ok second_ok
