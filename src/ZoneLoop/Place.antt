-- ===== src/ZoneLoop/Place.antt =====
-- The placement in internal/zonelet/task_scheduler.go: the resources of the hosts are counted, and
-- the first replica without a host gets one. `ScheduleHost` returns a hit or an error, never neither,
-- so the branch for a nil hit is not represented. All stages of one placement carry one time.
use innerstack.Prelude.{
  ℕ, zero, suc, ◌-◌, Bool, not, ◌&&◌, ◌||◌, List, [], ◌∷◌, ◌++◌, Option, none, some, Text, bytes,
  if◌then◌else◌, ◌==◌, text_key, number_key, length, ltb, leb, min, max, is_some,
}
use innerstack.Prelude.Int.{ℤ, pos, add64, sub64, mul64, leb_ℤ}
use innerstack.Prelude.Map.{Map, lookup, insert}
use innerstack.Sort.{SliceSort}
use innerstack.Network.HostPort.{host_port_alloc}
use innerstack.Network.Ipam.{host_network, alloc_host_sub_network}
use innerstack.Stages.{
  Stage, owner_zonelet, stages_root, on_children, at_child, at_replica_stage, at_revision,
  set_running, set_success, set_failed, set_instant, set_revision_deep,
}
use innerstack.Scheduler.{
  ScheduleAppReplica, ScheduleHostVolume, ScheduleHostItem, ScheduleHitItem, Error, bad_argument,
  no_host_found, no_host_scheduled, no_resource_fit, Result, ok, err, host_setup_start,
  schedule_host,
}
use innerstack.ZoneLoop.{
  SpecPort, ServicePort, Replica, App, HostEntry, HostReport, HostOperate, Outside, ZoneState,
  Outcome, ◌then_do◌, ticked, put_app, put_host, flush_app, write_host, at_replica_child,
  app_replica_cap_max, is_unplaced, name_port_alloc, name_ipam_alloc, host_cpu_used_mc,
}
use innerstack.ZoneLoop.Ports.{sort_ports, with_replica}

abbrev pub name_schedule : Text
name_schedule = bytes "schedule"

-- err.Error() of the scheduler.
pub error_text : Error → Text
error_text bad_argument = bytes "BadArgument"
error_text no_host_found = bytes "No Host Found"
error_text no_host_scheduled = bytes "No Host Scheduled"
error_text no_resource_fit = bytes "No Resource Fit"

abbrev pub is_usable : HostReport → Bool
is_usable st =
    not (leb_ℤ st.cpu_cores (pos 0))
    && not (leb_ℤ st.mem_total (pos 0))
    && not (leb_ℤ st.disk_total_bytes (pos 0))

-- A host as the scheduler sees it, with nothing allocated yet.
unfoldable pub sched_item : Text → HostReport → ScheduleHostItem
sched_item id st = record {
  id = id;
  op_action = host_setup_start ∷ [];
  cpu_total = mul64 st.cpu_cores (pos 1000);
  cpu_used = host_cpu_used_mc st;
  cpu_alloc = pos 0;
  mem_total = st.mem_total;
  mem_used = st.mem_used;
  mem_alloc = pos 0;
  volumes =
      record {
        name = bytes "default";
        total = st.disk_total_bytes;
        used = sub64 st.disk_total_bytes st.disk_free_bytes;
        alloc = pos 0;
      }
      ∷ [];
}

-- schedResources.Hosts before the count: the hosts that have reported.
unfoldable pub sched_hosts : Map Text HostReport → Map Text HostEntry → List ScheduleHostItem
unfolding sched_item
sched_hosts reports [] = []
sched_hosts reports ((id, h) ∷ rest) =
    let later = sched_hosts reports rest in
    elim (lookup id reports) [
      | none ↦ later
      | some st ↦ if is_usable st then sched_item id st ∷ later else later
    ]

abbrev pub alloc_first : ℤ → List ScheduleHostVolume → List ScheduleHostVolume
alloc_first n [] = []
alloc_first n (v ∷ vs) = record v { alloc = add64 v.alloc n } ∷ vs

abbrev pub alloc_on : App → ScheduleHostItem → ScheduleHostItem
alloc_on app v = record v {
  cpu_alloc = add64 v.cpu_alloc app.cpu_limit;
  mem_alloc = add64 v.mem_alloc app.memory_limit;
  volumes = alloc_first app.volume_limit v.volumes;
}

-- What one replica of an app takes on its host; ids are unique among the hosts.
unfoldable pub count_replica : App → Text → List ScheduleHostItem → List ScheduleHostItem
count_replica app id [] = []
count_replica app id (v ∷ vs) =
    let rest = count_replica app id vs in if v.id == id then alloc_on app v ∷ vs else v ∷ rest

unfoldable pub count_replicas : App → List Replica → List ScheduleHostItem → List ScheduleHostItem
unfolding count_replica
count_replicas app [] hosts = hosts
count_replicas app (rep ∷ rest) hosts =
    count_replicas app rest (if is_unplaced rep then hosts else count_replica app rep.host_id hosts)

-- The replicas of the named apps.
unfoldable pub count_apps : List Text → Map Text App → List ScheduleHostItem → List ScheduleHostItem
unfolding count_replicas
count_apps [] apps hosts = hosts
count_apps (name ∷ rest) apps hosts =
    count_apps rest apps
      (elim (lookup name apps) [ none ↦ hosts | some app ↦ count_replicas app app.replicas hosts ])

abbrev pub first_alloc : List ScheduleHostVolume → ℤ
first_alloc [] = pos 0
first_alloc (v ∷ vs) = v.alloc

-- gHostOperateSet gets what is allocated on each host.
unfoldable pub store_operate : List ScheduleHostItem → Map Text HostOperate → Map Text HostOperate
store_operate [] table = table
store_operate (v ∷ vs) table = store_operate vs (
    insert v.id
      (record {
        cpu_alloc = v.cpu_alloc;
        mem_alloc = v.mem_alloc;
        storage_alloc = first_alloc v.volumes;
      })
      table)

-- New replicas get the ids from the number of replicas on.
unfoldable pub new_replicas : ℕ → ℕ → List Replica
new_replicas first zero = []
new_replicas first (suc n) =
    record { id = first; host_id = []; vpc_ipv4 = []; service_ports = [] }
    ∷ new_replicas (suc first) n

abbrev pub less_id : Replica → Replica → Bool
less_id a b = ltb a.id b.id

-- The app with its capacity in range, its replicas in order, and as many as the capacity asks for.
unfoldable pub fill_replicas : SliceSort → App → App
unfolding new_replicas
fill_replicas sort app =
    let cap = max 1 (min app_replica_cap_max app.replica_cap) in
    let sorted = sort.slice Replica less_id app.replicas in
    let n = length sorted in
    record app { replica_cap = cap; replicas = sorted ++ new_replicas n (cap - n) }

-- The replicas before the first one without a host, that one, and those after it.
unfoldable pub split_unplaced : List Replica → Option (List Replica × Replica × List Replica)
split_unplaced [] = none
split_unplaced (rep ∷ rest) =
    let later = split_unplaced rest in
    if is_unplaced rep
    then some ([], rep, rest)
    else elim later [ none ↦ none | some (before, r, after) ↦ some (rep ∷ before, r, after) ]

-- The loop that gives each port of the spec a host port, or leaves it out: the ports, the host's list
-- and the questions asked.
unfoldable pub open_ports :
    Outside → List SpecPort → List ServicePort → List ℕ → ℕ → List ServicePort × List ℕ × ℕ
open_ports out [] set used asked = (set, used, asked)
open_ports out (sp ∷ rest) set used asked =
    let hp = host_port_alloc (out.rand asked) used 0 in
    let skip = ltb sp.port 1 || leb 65536 sp.port in
    let add = not skip && not (hp == 0) in
    open_ports out rest
      (if add then set ++ record { name = sp.name; port = sp.port; host_port = hp } ∷ [] else set)
      (if add then sort_ports (used ++ hp ∷ []) else used) (if skip then asked else suc asked)

abbrev pub at_schedule : ℕ → (Stage → Stage) → App → App
at_schedule rep_id f app = at_replica_child rep_id name_schedule f app

-- The scheduling stage of a replica, as it starts and as it fails.
unfoldable pub start_stage : ℤ → Replica → App → App
start_stage now rep app =
    at_schedule rep.id (λ st. at_revision app.deploy.revision (set_running now [] st)) app

unfoldable pub fail_stage : ℤ → Replica → Error → App → App
fail_stage now rep e app =
    at_schedule rep.id
      (λ st. at_revision app.deploy.revision (set_failed now now (error_text e) st)) app

-- The stage of a hit: two instantaneous stages below it, and its end.
unfoldable pub hit_stage : ℤ → Replica → Text → App → App
hit_stage now rep id app =
    at_schedule rep.id
      (λ st. set_success now now id (
        on_children (at_child (bytes "host_prioritize") owner_zonelet (set_instant now id))
          (on_children (at_child (bytes "host_fit") owner_zonelet (set_instant now [])) st)))
      app

unfoldable pub instant_child : ℤ → ℕ → Text → Text → App → App
instant_child now rep_id name msg app = at_replica_child rep_id name (set_instant now msg) app

-- The zone's own stages of a delivered replica, at the deployment's revision.
unfoldable pub deliver_stages : ℤ → Replica → App → App
unfolding instant_child
deliver_stages now rep app =
    let app₁ = instant_child now rep.id name_ipam_alloc rep.vpc_ipv4 app in
    let app₂ = instant_child now rep.id name_port_alloc [] app₁ in
    let app₃ = instant_child now rep.id (bytes "deliver") rep.host_id app₂ in
    let root =
      on_children (at_replica_stage rep.id (set_revision_deep app₃.deploy.revision))
        (stages_root app₃.deploy) in
    record app₃ { deploy = record app₃.deploy { stages = some root } }

unfoldable pub add_operate : App → HostOperate → HostOperate
add_operate app op = record {
  cpu_alloc = add64 op.cpu_alloc app.cpu_limit;
  mem_alloc = add64 op.mem_alloc app.memory_limit;
  storage_alloc = add64 op.storage_alloc app.volume_limit;
}

-- The address of a hit: none while the network is not ready or does not know the host.
unfoldable pub hit_address : Outside → Text → App → Replica → ZoneState → Text × ZoneState
hit_address out id app rep s =
    if s.net.ready && is_some (host_network s.net id)
    then (let (ip, net) =
          alloc_host_sub_network (out.clock s.tick) (out.answer s.tick) id app.name rep.id s.net in
        (ip, record (ticked s) { net = net }))
    else (rep.vpc_ipv4, s)

-- What is allocated on the host, with the app.
unfoldable pub raise_operate : App → Text → ZoneState → ZoneState
unfolding add_operate
raise_operate app id s = elim (lookup id s.operate) [
  | none ↦ s
  | some op ↦ record s { operate = insert id (add_operate app op) s.operate }
]

-- The writes of the app and the host.
unfoldable pub save_placed : Outside → App → Text → HostEntry → ZoneState → Outcome
unfolding raise_operate
save_placed out app id h s =
    flush_app out app (put_app app (put_host id h s))
    then_do (λ t. write_host out id h (raise_operate app id t))

-- A replica's way onto the host of the hit: its address, its ports, its stages, and the writes.
unfoldable pub settle :
    Outside
    → ℤ
    → List Replica
    → Replica
    → List Replica
    → App
    → Text
    → HostEntry
    → ZoneState
    → Outcome
unfolding hit_address open_ports deliver_stages save_placed
settle out now before rep rest app id h s =
    let (ip, s₁) = hit_address out id app rep s in
    let (set, used, asked) = open_ports out app.spec_ports [] h.port_used s₁.tick in
    let rep' = record rep { host_id = id; vpc_ipv4 = ip; service_ports = set } in
    let app' = deliver_stages now rep' (with_replica before rep' rest app) in
    save_placed out app' id (record h { port_used = used }) (record s₁ { tick = asked })

-- The round for a replica without a host; the loop ends with it, whatever comes of it.
unfoldable pub place_replica :
    Outside
    → List Replica
    → Replica
    → List Replica
    → App
    → Result ScheduleHitItem
    → ZoneState
    → Outcome
unfolding settle
place_replica out before rep rest app hit s =
    let now = out.clock s.tick in
    let started = start_stage now rep app in
    elim hit [
      | err e ↦
          let app' = fail_stage now rep e started in flush_app out app' (put_app app' (ticked s))
      | ok best ↦
          let app' = hit_stage now rep best.host_id started in
          elim (lookup best.host_id s.hosts) [
            | none ↦ (none, put_app app' (ticked s))
            | some h ↦ settle out now before rep rest app' best.host_id h (put_app app' (ticked s))
          ]
    ]

abbrev pub demand : App → Replica → ScheduleAppReplica
demand app rep = record {
  rep_id = rep.id;
  cpu = app.cpu_limit;
  mem = app.memory_limit;
  vol = app.volume_limit;
}

-- The last loop of the pass, for its one app.
unfoldable pub place_app :
    SliceSort → (ℤ → ℤ) → (ℤ → ℤ) → Outside → App → List ScheduleHostItem → ZoneState → Outcome
unfolding fill_replicas split_unplaced place_replica
place_app sort cpu_cap mem_cap out app hosts s =
    let app' = fill_replicas sort app in
    elim (split_unplaced app'.replicas) [
      | none ↦ (none, put_app app' s)
      | some (before, rep, rest) ↦
          place_replica out before rep rest app'
            ((schedule_host sort cpu_cap mem_cap (some (demand app' rep)) hosts none).0) s
    ]
