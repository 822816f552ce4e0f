-- ===== src/ZoneLoop/Pass.antt =====
-- `schedulerRefresh` of internal/zonelet/task_scheduler.go: one pass of the zone leader.
use innerstack.Prelude.{
  ℕ, Bool, true, false, not, ◌&&◌, ◌||◌, List, [], ◌∷◌, Option, none, some, Text, if◌then◌else◌,
  ◌==◌, text_key, eqb, ltb, length, is_some,
}
use innerstack.Prelude.Int.{ℤ, pos, add64, ltb_ℤ}
use innerstack.Prelude.Map.{Map, lookup, insert}
use innerstack.Sort.{SliceSort}
use innerstack.Inet.{Quad, Cidr}
use innerstack.Network.Ipam.{Host}
use innerstack.Network.Ipam.Hosts.{refresh_host_network}
use innerstack.Network.Ipam.Zone.{Read, restore, zone_setup}
use innerstack.ZoneLoop.{
  App, HostEntry, HostReport, HostOperate, Outside, ZoneState, read_failed, network_failed, Outcome,
  ◌then_do◌, ticked, put_app, put_host, write_host, reconcile_app, live_names, active_name,
}
use innerstack.ZoneLoop.Ports.{collect_ports, sync_hosts, bind_replicas}
use innerstack.ZoneLoop.Addresses.{address_replicas}
use innerstack.ZoneLoop.Place.{sched_hosts, count_apps, store_operate, place_app}

-- The fields of inapi.Zone, and of the configuration, that set up the network.
pub record ZoneInfo : Type 0 where
  pub vpc_bridge_cidr : Text
  pub vpc_instance_cidr : Text
  pub vpc_network_domain : Text

-- What one pass reads: the leader's status, the configuration, the reports of the hosts, and the data
-- store. `none` is a failed read; records that do not decode are not among those read.
pub record Reads : Type 0 where
  pub is_leader : Bool
  pub forced : Bool
  pub zone_name : Text
  pub config : ZoneInfo
  pub network_read : Read
  pub zone_info : Option ZoneInfo
  pub host_list : Option (List HostEntry)
  pub app_list : Option (List (ℕ × App))
  pub reports : Map Text HostReport

-- The flags by which a pass reads everything again.
pub record Refresh : Type 0 where
  pub last_refreshed : ℤ
  pub force_refresh : Bool

abbrev pub force_fresh_ttl : ℤ
force_fresh_ttl = pos 1800

-- Whether this pass reads everything, and the flags after that.
unfoldable pub refresh_flags : ℤ → Bool → Map Text HostOperate → Refresh → Bool × Refresh
refresh_flags now forced operate r =
    let due =
      ltb_ℤ (add64 r.last_refreshed force_fresh_ttl) now
      || eqb (length operate) 0
      || r.force_refresh in
    if not forced && due
    then (true, record { last_refreshed = now; force_refresh = false })
    else (forced, r)

module _ (parse_ipv6 : Text → Option Quad) (cidr6 : Text → Cidr) where
  -- `ZoneSetup`, whose error is only logged.
  unfoldable pub set_up : Outside → Text → ZoneInfo → ZoneState → ZoneState
  set_up out zone z s =
      let (e, net) =
        zone_setup parse_ipv6 cidr6 (out.clock s.tick) (out.answer s.tick) zone z.vpc_bridge_cidr
          z.vpc_instance_cidr z.vpc_network_domain s.net in
      record (ticked s) { net = net }

  abbrev pub is_given : ZoneInfo → Bool
  is_given z = not (z.vpc_bridge_cidr == []) && not (z.vpc_instance_cidr == [])

  -- The network of the zone: from the data store, then from the zone's record, then from the
  -- configuration.
  unfoldable pub set_up_all : Outside → Reads → ZoneInfo → ZoneState → ZoneState
  unfolding set_up
  set_up_all out reads z s =
      let s₁ = if is_given z then set_up out reads.zone_name z s else s in
      if not s₁.net.ready && not (reads.config.vpc_bridge_cidr == [])
      then set_up out reads.zone_name reads.config s₁
      else s₁

  unfoldable pub restore_network : Outside → Reads → ZoneState → Outcome
  unfolding set_up_all
  restore_network out reads s =
      let (e, net) = restore cidr6 reads.network_read reads.zone_name s.net in
      let s' = record s { net = net } in
      elim e [
        | some _ ↦ (some network_failed, s')
        | none ↦ elim reads.zone_info [
          | none ↦ (some read_failed, s')
          | some z ↦ (none, set_up_all out reads z s')
        ]
      ]

  abbrev pub with_deploy : Host → Host
  with_deploy h = record h {
    deploy = elim h.deploy [
      | none ↦ some (record { vpc_bridge_ip = []; vpc_instance_cidr = [] })
      | some d ↦ some d
    ];
  }

  -- A host that was read: it enters the set, and gets its place in the network.
  unfoldable pub load_host : Outside → HostEntry → ZoneState → Outcome
  load_host out entry s =
      let h = record entry { host = with_deploy entry.host } in
      let s₁ = put_host h.host.id h s in
      if not s.net.ready
      then (none, s₁)
      else (let r =
            refresh_host_network parse_ipv6 (out.clock s.tick) (out.answer s.tick) h.host s.net in
          let h' = record h { host = r.host } in
          let s₂ = record (ticked (put_host h.host.id h' s₁)) { net = r.state } in
          if is_some r.error || not r.changed then (none, s₂) else write_host out h.host.id h' s₂)

  unfoldable pub load_hosts : Outside → List HostEntry → ZoneState → Outcome
  unfolding load_host
  load_hosts out [] s = (none, s)
  load_hosts out (h ∷ rest) s = load_host out h s then_do load_hosts out rest

unfoldable pub is_newer : ℕ → Option ℕ → Bool
is_newer v none = true
is_newer v (some old) = ltb old v

-- `gAppInstanceSet.store`: an app that was read replaces an older one.
unfoldable pub load_apps : List (ℕ × App) → ZoneState → ZoneState
unfolding is_newer
load_apps [] s = s
load_apps ((v, app) ∷ rest) s = load_apps rest (
    if is_newer v (lookup app.name s.app_versions)
    then record (put_app app s) { app_versions = insert app.name v s.app_versions }
    else s)

unfoldable pub refresh_apps : Bool → Reads → ZoneState → Outcome
unfolding load_apps
refresh_apps force reads s =
    if force || not s.apps_ready
    then elim reads.app_list [
      | none ↦ (some read_failed, s)
      | some apps ↦ (none, record (load_apps apps s) { apps_ready = true })
    ]
    else (none, s)

unfoldable pub reconcile_apps : Outside → List Text → ZoneState → ZoneState
reconcile_apps out [] s = s
reconcile_apps out (name ∷ rest) s =
    reconcile_apps out rest
      (elim (lookup name s.apps) [ none ↦ s | some app ↦ reconcile_app out app s ])

module _ (parse_ipv6 : Text → Option Quad) where
  -- The ports and then the address of each replica of an app.
  unfoldable pub bind_app : Outside → App → ZoneState → Outcome
  bind_app out app s =
      let b = bind_replicas out [] app.replicas app s in
      let a = address_replicas parse_ipv6 out [] b.app.replicas b.app b.state in
      elim b.fault [
        | some e ↦ (some e, b.state)
        | none ↦ if b.state.net.ready then (a.fault, a.state) else (none, b.state)
      ]

  unfoldable pub bind_apps : Outside → List Text → ZoneState → Outcome
  unfolding bind_app
  bind_apps out [] s = (none, s)
  bind_apps out (name ∷ rest) s =
      (elim (lookup name s.apps) [ none ↦ (none, s) | some app ↦ bind_app out app s ])
      then_do bind_apps out rest

module _ (sort : SliceSort) (cpu_cap mem_cap : ℤ → ℤ) where
  -- The count of the resources, and the placement.
  unfoldable pub schedule_active : Outside → Reads → List Text → Option Text → ZoneState → Outcome
  schedule_active out reads names active s =
      let hosts = sched_hosts reads.reports s.hosts in
      let counted = count_apps names s.apps hosts in
      let s' = record s { operate = store_operate counted s.operate } in
      if not (is_some active) && not (eqb (length s.operate) 0)
      then (none, s)
      else if eqb (length hosts) 0
      then (none, s)
      else elim active [
        | none ↦ (none, s')
        | some name ↦ elim (lookup name s'.apps) [
          | none ↦ (none, s')
          | some app ↦ place_app sort cpu_cap mem_cap out app counted s'
        ]
      ]

module _ (parse_ipv6 : Text → Option Quad) (cidr6 : Text → Cidr) (sort : SliceSort)
    (cpu_cap mem_cap : ℤ → ℤ) where
  -- What follows once the sets are loaded.
  unfoldable pub schedule_loaded : Outside → Reads → ZoneState → Outcome
  unfolding reconcile_apps bind_apps schedule_active
  schedule_loaded out reads s =
      let names = live_names s.apps in
      let active = active_name s.apps in
      sync_hosts out (collect_ports s.apps []) s
      then_do (λ t. bind_apps parse_ipv6 out names (reconcile_apps out names t))
      then_do schedule_active sort cpu_cap mem_cap out reads names active

  unfoldable pub load_host_list : Outside → Reads → ZoneState → Outcome
  unfolding load_hosts
  load_host_list out reads s = elim reads.host_list [
    | none ↦ (some read_failed, s)
    | some hs ↦ load_hosts parse_ipv6 cidr6 out hs s
  ]

  unfoldable pub scheduler_refresh : Outside → ℤ → Reads → Refresh → ZoneState → Outcome × Refresh
  unfolding restore_network load_host_list refresh_apps schedule_loaded refresh_flags
  scheduler_refresh out now reads r s =
      let (force, r') = refresh_flags now reads.forced s.operate r in
      let s₀ = record s { bumped = [] } in
      if not reads.is_leader then ((none, s), r) else (
        (if force then restore_network parse_ipv6 cidr6 out reads s₀ else (none, s₀))
            then_do load_host_list out reads
            then_do refresh_apps force reads
            then_do schedule_loaded out reads,
        r',
      )
