-- ===== src/Network/Ipam/Zone.antt =====
-- `ZoneSetup` and `Restore` of internal/zonelet/network/ipam.go: the zone's two networks.
use innerstack.Prelude.{
  ℕ, true, false, not, ◌||◌, [], ◌∷◌, Option, none, some, Text, if◌then◌else◌, ◌==◌, text_key,
  number_key, leb,
}
use innerstack.Prelude.Int.{ℤ}
use innerstack.Prelude.Map.{Map, insert, keep_keys}
use innerstack.Inet.{
  Quad, bytes_to_uint32, ip4_to_string, parse_private_ip, Cidr, not_a_cidr, not_ipv4, address,
  parse_cidr,
}
use innerstack.Network.Ipam.{
  ZoneHost, ZoneNetworkMap, NetworkManager, Error, zone_name_mismatch, invalid_cidr, not_private,
  zone_not_ready, read_failed, bad_json, map_of, mask24, mask16, flush, ◌then_run◌,
}

-- The zone's name is set once.
set_zone_name : Text → NetworkManager → Option Error × NetworkManager
set_zone_name zone s =
    if zone == s.zone_name
    then (none, s)
    else if not (s.zone_name == [])
    then (some zone_name_mismatch, s)
    else (none, record s { zone_name = zone; changed = true })

-- `if nm.Map == nil { nm.Map = &inapi.ZoneNetworkMap{} }`
make_map : NetworkManager → Option Error × NetworkManager
make_map s = (none, record s { zone_map = some (map_of s.zone_map) })

module _ (parse_ipv6 : Text → Option Quad) (cidr6 : Text → Cidr) where
  -- The address of a CIDR text, which must be private.
  private_cidr :
      Text → (Quad → Option Error × NetworkManager) → NetworkManager → Option Error × NetworkManager
  private_cidr cidr accept s = elim (parse_cidr cidr6 cidr) [
    | not_a_cidr ↦ (some invalid_cidr, s)
    | not_ipv4 ↦ (some not_private, s)
    | address q ↦ elim (parse_private_ip parse_ipv6 (ip4_to_string q)) [
      | none ↦ (some not_private, s)
      | some _ ↦ accept q
    ]
  ]

  set_bridge_cidr : Text → NetworkManager → Option Error × NetworkManager
  unfolding private_cidr
  set_bridge_cidr cidr s =
      let m = map_of s.zone_map in
      if cidr == m.vpc_bridge_cidr
      then (none, s)
      else private_cidr cidr
          (λ q. (
            none,
            record s {
              zone_map = some (record m { vpc_bridge_cidr = cidr });
              bridge = bytes_to_uint32 q;
              changed = true;
            },
          ))
          s

  set_instance_cidr : Text → NetworkManager → Option Error × NetworkManager
  unfolding private_cidr
  set_instance_cidr cidr s =
      let m = map_of s.zone_map in
      if cidr == m.vpc_instance_cidr
      then (none, s)
      else private_cidr cidr
          (λ q. (
            none,
            record s {
              zone_map = some (record m { vpc_instance_cidr = cidr });
              instance_net = bytes_to_uint32 q;
              changed = true;
            },
          ))
          s

set_domain : Text → NetworkManager → Option Error × NetworkManager
set_domain domain s =
    let m = map_of s.zone_map in
    if domain == [] || domain == m.vpc_network_domain then (none, s) else (
      none,
      record s { zone_map = some (record m { vpc_network_domain = domain }); changed = true },
    )

flush_changed : ℤ → Option ℕ → NetworkManager → Option Error × NetworkManager
flush_changed now write s =
    if s.changed
    then flush now write s then_run (λ t. (none, record t { changed = false }))
    else (none, s)

unfoldable pub zone_setup :
    (Text → Option Quad)
    → (Text → Cidr)
    → ℤ
    → Option ℕ
    → Text
    → Text
    → Text
    → Text
    → NetworkManager
    → Option Error × NetworkManager
unfolding set_zone_name make_map set_bridge_cidr set_instance_cidr set_domain flush_changed
zone_setup parse_ipv6 cidr6 now write zone bridge_cidr instance_cidr domain s =
    if zone == [] || bridge_cidr == [] || instance_cidr == []
    then (none, s)
    else set_zone_name zone s
      then_run make_map
      then_run set_bridge_cidr parse_ipv6 cidr6 bridge_cidr
      then_run set_instance_cidr parse_ipv6 cidr6 instance_cidr
      then_run set_domain domain
      then_run flush_changed now write
      then_run (λ t. (none, record t { ready = true }))

-- What the data store answers to the read of the network key: `item` holds the version and, if its
-- JSON is that of a map, the map.
pub data Read : Type 0 where
  not_found failed : Read
  item : ℕ → Option ZoneNetworkMap → Read

-- The loop of `Restore` over the stored bridges: a host whose record agrees with its key is known.
unfoldable pub known_hosts : ℕ → Map ℕ ZoneHost → Map Text ℕ → Map Text ℕ
known_hosts bridge [] hosts = hosts
known_hosts bridge ((k, h) ∷ rest) hosts = known_hosts bridge rest (
    if not (mask24 k == bridge)
    then hosts
    else if h.bridge == k
    then insert h.id k hosts
    else hosts)

-- A text that `net.ParseCIDR` accepts with an IPv6 address makes the code panic in `BytesToUint32`.
-- Here it is an error like any other.
restore_map : (Text → Cidr) → ℕ → ZoneNetworkMap → NetworkManager → Option Error × NetworkManager
restore_map cidr6 v m s = elim (parse_cidr cidr6 m.vpc_bridge_cidr) [
  | address b ↦
      let bridge = mask24 (bytes_to_uint32 b) in
      elim (parse_cidr cidr6 m.vpc_instance_cidr) [
        | address i ↦
            let base = mask16 (bytes_to_uint32 i) in
            (
              none,
              record s {
                zone_map = some (record m {
                  vpc_bridge_host = keep_keys (λ k. mask24 k == bridge) m.vpc_bridge_host;
                  vpc_instance = keep_keys (λ k. mask16 k == base) m.vpc_instance;
                });
                hosts = known_hosts bridge m.vpc_bridge_host [];
                bridge = bridge;
                instance_net = base;
                version = v;
                ready = true;
              },
            )
        | _ ↦ (some invalid_cidr, record s { zone_map = some m; hosts = []; bridge = bridge })
      ]
  | _ ↦ (some invalid_cidr, record s { zone_map = some m; hosts = [] })
]

restore_item : (Text → Cidr) → Read → NetworkManager → Option Error × NetworkManager
unfolding restore_map
restore_item cidr6 not_found s = (none, s)
restore_item cidr6 failed s = (some read_failed, s)
restore_item cidr6 (item v none) s = if leb v s.version then (none, s) else (some bad_json, s)
restore_item cidr6 (item v (some m)) s =
    if leb v s.version then (none, s) else restore_map cidr6 v m s

unfoldable pub restore :
    (Text → Cidr) → Read → Text → NetworkManager → Option Error × NetworkManager
unfolding restore_item
restore cidr6 read zone s =
    if zone == []
    then (some zone_not_ready, s)
    else restore_item cidr6 read (record s { zone_name = zone })
