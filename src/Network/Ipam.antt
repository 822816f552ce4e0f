-- ===== src/Network/Ipam.antt =====
-- internal/zonelet/network/ipam.go: the addresses of the zone's private network.
-- A method takes the state and returns the new one. Its arguments also hold what it gets from
-- elsewhere: `now` is the clock, `write` the data store's answer to a write (`none`, or the new
-- version). The records of `Hosts` are shared with `Map.VpcBridgeHost`: `hosts` holds the key under
-- which the shared record stands there. Null records in a stored map are not represented.
mod Examples
pub mod Alloc
pub mod Ownership
pub mod Hosts
pub mod Zone
use innerstack.Prelude.{
  ℕ, zero, suc, ◌+◌, ◌-◌, ◌*◌, ◌/◌, ◌%◌, ◌^◌, ◌≡◌, Bool, true, false, not, ◌&&◌, ◌||◌, List, [],
  ◌∷◌, ◌++◌, Option, none, some, Text, bytes, if◌then◌else◌, ◌==◌, text_key, number_key, is_some,
  leb,
}
use innerstack.Prelude.Int.{ℤ, pos}
use innerstack.Prelude.Map.{Map, lookup, insert, keep_keys}
use innerstack.Decimal.{decimal}
use innerstack.Inet.{
  Quad, bytes_to_uint32, ip4_to_string, uint32_to_ipv4, parse_private_ip, parse_private_address,
  ipv4_to_uint32, Cidr, not_a_cidr, not_ipv4, address, parse_cidr,
}
use innerstack.Network.Scan.{first_from}

-- inapi.VpcAllocMin, and the numbers from there to inapi.VpcAllocMax.
abbrev pub vpc_alloc_min : ℕ
vpc_alloc_min = 3

abbrev pub vpc_alloc_cap : ℕ
vpc_alloc_cap = 250

pub record ZoneHost : Type 0 where
  pub id : Text
  pub bridge : ℕ
  pub instance_net : ℕ
  pub peer : ℕ

pub record ZoneNetworkMap : Type 0 where
  pub vpc_bridge_cidr : Text
  pub vpc_instance_cidr : Text
  pub vpc_network_domain : Text
  pub updated : ℤ
  pub revision : ℕ
  pub vpc_bridge_host : Map ℕ ZoneHost
  pub vpc_instance : Map ℕ Text

-- The fields of the Go struct, and what the network key of the data store holds.
pub record NetworkManager : Type 0 where
  pub zone_map : Option ZoneNetworkMap
  pub version : ℕ
  pub bridge : ℕ
  pub instance_net : ℕ
  pub host_peer_ipv4 : Map Text Text
  pub hosts : Map Text ℕ
  pub changed : Bool
  pub zone_name : Text
  pub ready : Bool
  pub stored : Option ZoneNetworkMap

pub record HostDeploy : Type 0 where
  pub vpc_bridge_ip : Text
  pub vpc_instance_cidr : Text

pub record Host : Type 0 where
  pub id : Text
  pub peer_addr : Text
  pub deploy : Option HostDeploy

pub data Error : Type 0 where
  zone_name_mismatch invalid_cidr not_private bad_address write_failed : Error
  zone_not_ready read_failed bad_json : Error

abbrev pub empty_map : ZoneNetworkMap
empty_map = record {
  vpc_bridge_cidr = [];
  vpc_instance_cidr = [];
  vpc_network_domain = [];
  updated = pos 0;
  revision = 0;
  vpc_bridge_host = [];
  vpc_instance = [];
}

-- A nil map reads as an empty one; a write makes one first.
abbrev pub map_of : Option ZoneNetworkMap → ZoneNetworkMap
map_of none = empty_map
map_of (some m) = m

abbrev pub bridge_hosts : NetworkManager → Map ℕ ZoneHost
bridge_hosts s = (map_of s.zone_map).vpc_bridge_host

abbrev pub instances : NetworkManager → Map ℕ Text
instances s = (map_of s.zone_map).vpc_instance

-- x & 0xFFFFFF00 and x & 0xFFFF0000
abbrev pub mask24 : ℕ → ℕ
mask24 x = x / 2 ^ 8 * 2 ^ 8

abbrev pub mask16 : ℕ → ℕ
mask16 x = x / 2 ^ 16 * 2 ^ 16

unfoldable pub flush : ℤ → Option ℕ → NetworkManager → Option Error × NetworkManager
flush now write s =
    let m = map_of s.zone_map in
    let m' = record m { updated = now; revision = (m.revision + 1) % 2 ^ 64 } in
    elim write [
      | none ↦ (some write_failed, record s { zone_map = some m' })
      | some v ↦ (none, record s { zone_map = some m'; version = v; stored = some m' })
    ]

-- `if err := …; err != nil { return err }`
infixl 5 ◌then_run◌
abbrev pub ◌then_run◌ :
    Option Error × NetworkManager
    → (NetworkManager → Option Error × NetworkManager)
    → Option Error × NetworkManager
(none, s) then_run next = next s
(some e, s) then_run next = (some e, s)

-- The record of a host by its id, and the key under which it stands.
pub host_net : NetworkManager → Text → Option (ℕ × ZoneHost)
host_net s id = elim (lookup id s.hosts) [
  | none ↦ none
  | some k ↦ elim (lookup k (bridge_hosts s)) [ none ↦ none | some h ↦ some (k, h) ]
]

-- fmt.Sprintf("%s_%d", instanceName, repId)
pub replica_key : Text → ℕ → Text
replica_key name rep_id = name ++ (b'_' ∷ decimal rep_id)

-- The first loop of `AllocHostSubNetwork`: the address that the replica already has.
pub has_owner : Map ℕ Text → ℕ → Text → ℕ → Bool
has_owner m base key n = elim (lookup (base + n) m) [ none ↦ false | some id ↦ key == id ]

-- The test of the allocating loops: no entry stands at the address.
pub is_vacant {ℓ} : {V : Type ℓ} → Map ℕ V → ℕ → ℕ → Bool
is_vacant m base n = not (is_some (lookup (base + n) m))

abbrev pub assign : Text → ℕ → NetworkManager → NetworkManager
assign key a s =
    let m = map_of s.zone_map in
    record s { zone_map = some (record m { vpc_instance = insert a key m.vpc_instance }) }

pub write_address : ℤ → Option ℕ → Text → ℕ → NetworkManager → Text × NetworkManager
write_address now write key a s =
    let (e, t) = flush now write (assign key a s) in (if is_some e then [] else uint32_to_ipv4 a, t)

-- The second loop: the first vacant address is given to the replica and written out.
pub take_address : ℤ → Option ℕ → Text → ℕ → NetworkManager → Text × NetworkManager
take_address now write key base s =
    elim (first_from (is_vacant (instances s) base) vpc_alloc_min vpc_alloc_cap) [
      | none ↦ ([], s)
      | some n ↦ write_address now write key (base + n) s
    ]

-- The two loops, for the /24 that starts at `base`.
pub alloc_address : ℤ → Option ℕ → Text → ℕ → NetworkManager → Text × NetworkManager
alloc_address now write key base s =
    elim (first_from (has_owner (instances s) base key) vpc_alloc_min vpc_alloc_cap) [
      | some n ↦ (uint32_to_ipv4 (base + n), s)
      | none ↦ take_address now write key base s
    ]

unfoldable pub alloc_host_sub_network :
    ℤ → Option ℕ → Text → Text → ℕ → NetworkManager → Text × NetworkManager
alloc_host_sub_network now write host_id instance_name rep_id s =
    if not s.ready then ([], s) else elim (host_net s host_id) [
      | none ↦ ([], s)
      | some (k, h) ↦
          alloc_address now write (replica_key instance_name rep_id) (mask24 h.instance_net) s
    ]

-- The reads.
unfoldable pub host_peer_ip : NetworkManager → Text → Text × Bool
host_peer_ip s id = elim (lookup id s.host_peer_ipv4) [ none ↦ ([], false) | some ip ↦ (ip, true) ]

unfoldable pub host_network : NetworkManager → Text → Option ZoneHost
host_network s id = elim (host_net s id) [ none ↦ none | some (k, h) ↦ some h ]

unfoldable pub vpc_instance_of : (Text → Option Quad) → NetworkManager → Text → Text
vpc_instance_of parse_ipv6 s ip = elim (lookup (ipv4_to_uint32 parse_ipv6 ip) (instances s)) [
  | none ↦ []
  | some id ↦ id
]
