-- ===== src/Network/Ipam/Hosts.antt =====
-- `RefreshHostNetwork` of internal/zonelet/network/ipam.go: a host's place in the zone's networks.
use innerstack.Prelude.{
  ℕ, ◌+◌, ◌*◌, ◌^◌, Bool, false, not, ◌&&◌, [], ◌++◌, Option, none, some, Text, bytes,
  if◌then◌else◌, ◌==◌, text_key, number_key, is_some,
}
use innerstack.Prelude.Int.{ℤ}
use innerstack.Prelude.Map.{Map, lookup, insert}
use innerstack.Inet.{Quad, bytes_to_uint32, ip4_to_string, uint32_to_ipv4, parse_private_address}
use innerstack.Network.Scan.{first_from}
use innerstack.Network.Ipam.{
  vpc_alloc_min, vpc_alloc_cap, ZoneHost, NetworkManager, HostDeploy, Host, Error, bad_address,
  map_of, bridge_hosts, mask24, mask16, flush, host_net, is_vacant,
}

-- The loop that looks for a host's own entry among the bridges.
pub is_own_entry : Map ℕ ZoneHost → ℕ → Text → ℕ → Bool
is_own_entry m base id n = elim (lookup (base + n) m) [ none ↦ false | some v ↦ v.id == id ]

-- The key of the record that the host has, unless its bridge address is not the one it reports.
pub current_entry : NetworkManager → Text → Text → Option ℕ
current_entry s id bridge_ip = elim (host_net s id) [
  | none ↦ none
  | some (k, h) ↦
      if uint32_to_ipv4 h.bridge == bridge_ip
      then some k
      else elim (first_from (is_own_entry (bridge_hosts s) (mask24 s.bridge) id) vpc_alloc_min
          vpc_alloc_cap) [ none ↦ none | some n ↦ some (mask24 s.bridge + n) ]
]

-- Nothing is to do for a host that reports the bridge and the peer of its record.
is_up_to_date : Option (ℕ × ZoneHost) → Text → ℕ → Bool
is_up_to_date none bridge_ip peer = false
is_up_to_date (some (k, h)) bridge_ip peer = uint32_to_ipv4 h.bridge == bridge_ip && h.peer == peer

-- A new record at the first vacant bridge address, with the host's /24 of the instance network.
pub take_bridge : Text → NetworkManager → Option (ℕ × NetworkManager)
take_bridge id s =
    elim (first_from (is_vacant (bridge_hosts s) (mask24 s.bridge)) vpc_alloc_min vpc_alloc_cap) [
      | none ↦ none
      | some n ↦
          let bn = mask24 s.bridge + n in
          let m = map_of s.zone_map in
          let h : ZoneHost = record {
            id = id;
            bridge = bn;
            instance_net = mask16 s.instance_net + n * 2 ^ 8;
            peer = 0;
          } in
          some (
            bn,
            record s {
              zone_map = some (record m { vpc_bridge_host = insert bn h m.vpc_bridge_host });
              hosts = insert id bn s.hosts;
            },
          )
    ]

-- The key of the host's record, which is made if there is none.
pub entry_or_new : Text → Text → NetworkManager → Option (ℕ × NetworkManager)
entry_or_new id bridge_ip s = elim (current_entry s id bridge_ip) [
  | some k ↦ some (k, s)
  | none ↦ take_bridge id s
]

-- The record at a key gets the peer; it is shared, so `Hosts` shows it too.
pub set_peer : ℕ → ℕ → ZoneHost → NetworkManager → NetworkManager
set_peer k peer h s =
    let m = map_of s.zone_map in
    record s {
      zone_map =
          some
            (record m { vpc_bridge_host = insert k (record h { peer = peer }) m.vpc_bridge_host });
    }

pub record Refreshed : Type 0 where
  pub changed : Bool
  pub error : Option Error
  pub host : Host
  pub state : NetworkManager

abbrev unchanged : Option Error → Host → NetworkManager → Refreshed
unchanged e host s = record { changed = false; error = e; host = host; state = s }

-- The end of the method: the host learns its addresses, and the map is written out.
pub publish : ℤ → Option ℕ → ℕ → Host → HostDeploy → ℕ → NetworkManager → Refreshed
publish now write peer host deploy k s = elim (lookup k (bridge_hosts s)) [
  | none ↦ unchanged none host s
  | some h ↦
      let host' = record host {
        deploy = some (record {
          vpc_bridge_ip = uint32_to_ipv4 h.bridge;
          vpc_instance_cidr = uint32_to_ipv4 h.instance_net ++ bytes "/24";
        });
      } in
      let (e, s') = flush now write (set_peer k peer h s) in
      record { changed = not (is_some e); error = e; host = host'; state = s' }
]

refresh_known : ℤ → Option ℕ → ℕ → Host → HostDeploy → NetworkManager → Refreshed
unfolding is_up_to_date
refresh_known now write peer host deploy s =
    if not s.ready
    then unchanged none host s
    else if is_up_to_date (host_net s host.id) deploy.vpc_bridge_ip peer
    then unchanged none host s
    else elim (entry_or_new host.id deploy.vpc_bridge_ip s) [
      | none ↦ unchanged none host s
      | some (k, s') ↦ publish now write peer host deploy k s'
    ]

unfoldable pub refresh_host_network :
    (Text → Option Quad) → ℤ → Option ℕ → Host → NetworkManager → Refreshed
unfolding refresh_known
refresh_host_network parse_ipv6 now write host s = elim host.deploy [
  | none ↦ unchanged none host s
  | some deploy ↦
      if host.peer_addr == []
      then unchanged none host s
      else elim (parse_private_address parse_ipv6 host.peer_addr) [
        | none ↦ unchanged (some bad_address) host s
        | some q ↦
            refresh_known now write (bytes_to_uint32 q) host deploy
              (record s { host_peer_ipv4 = insert host.id (ip4_to_string q) s.host_peer_ipv4 })
      ]
]
