-- ===== src/ZoneLoop.antt =====
-- internal/zonelet/task_scheduler.go: what the zone leader's scheduling pass keeps, and its helpers.
-- The pass asks the data store, the clock and the random numbers many times: `Outside` is what they
-- answer, by the number of questions asked before, which `tick` counts; a write that succeeds is
-- answered by the new version. Whether the version that goes with a write is the right one is the
-- store's decision, so it is part of the answer. Pointers that the sets of the
-- program share are the values under their keys here.
mod Examples
pub mod Ports
pub mod Addresses
pub mod Place
pub mod Pass
pub mod Steady
pub mod Rounds
pub mod Deleted
pub mod FreePorts
pub mod Count
pub mod Revision
use innerstack.Prelude.{
  ℕ, suc, ◌+◌, ◌%◌, ◌^◌, ◌≡◌, Bool, true, false, not, ◌&&◌, ◌||◌, List, [], ◌∷◌, ◌++◌, Option, none,
  some, Text, bytes, if◌then◌else◌, ◌==◌, text_key, number_key, contains, any, keep_if, find?,
  length, ltb, leb,
}
use innerstack.Prelude.Int.{ℤ, pos, add64, quot_ℤ}
use innerstack.Prelude.Map.{Map, lookup, insert}
use innerstack.Network.Ipam.{NetworkManager, Host}
use innerstack.Stages.{
  Stage, Deploy, owner_zonelet, stages_root, on_children, at_child, at_replica_stage, at_revision,
  set_instant, reconcile,
}

-- inapi.OpActionDelete and inapi.AppReplicaCapMax
abbrev pub op_action_delete : Text
op_action_delete = bytes "delete"

abbrev pub app_replica_cap_max : ℕ
app_replica_cap_max = 128

abbrev pub name_port_alloc : Text
name_port_alloc = bytes "port_alloc"

abbrev pub name_ipam_alloc : Text
name_ipam_alloc = bytes "ipam_alloc"

-- AppSpecServicePort and AppDeployServicePort
pub record SpecPort : Type 0 where
  pub name : Text
  pub port : ℕ

pub record ServicePort : Type 0 where
  pub name : Text
  pub port : ℕ
  pub host_port : ℕ

-- AppDeployReplica
pub record Replica : Type 0 where
  pub id : ℕ
  pub host_id : Text
  pub vpc_ipv4 : Text
  pub service_ports : List ServicePort

-- What the pass uses of an AppInstance: its name, and fields of its spec and of its deploy.
pub record App : Type 0 where
  pub name : Text
  pub spec_ports : List SpecPort
  pub action : Text
  pub replica_cap : ℕ
  pub cpu_limit : ℤ
  pub memory_limit : ℤ
  pub volume_limit : ℤ
  pub replicas : List Replica
  pub deploy : Deploy

-- A host of the set, with Deploy.PortUsed.
pub record HostEntry : Type 0 where
  pub host : Host
  pub port_used : List ℕ

pub record HostOperate : Type 0 where
  pub cpu_alloc : ℤ
  pub mem_alloc : ℤ
  pub storage_alloc : ℤ

-- HostStatus, as the host reports it.
pub record HostReport : Type 0 where
  pub cpu_cores : ℤ
  pub cpu_sys : ℤ
  pub cpu_user : ℤ
  pub mem_total : ℤ
  pub mem_used : ℤ
  pub disk_total_bytes : ℤ
  pub disk_free_bytes : ℤ

pub record Outside : Type 0 where
  pub answer : ℕ → Option ℕ
  pub clock : ℕ → ℤ
  pub rand : ℕ → ℕ → ℕ

-- The sets of the zone leader in memory, what the data store holds of them, and the variables of a
-- pass. `app_versions` holds Meta.Version of the apps, and `bumped` lists the apps whose revision this pass has raised.
pub record ZoneState : Type 0 where
  pub hosts : Map Text HostEntry
  pub apps : Map Text App
  pub app_versions : Map Text ℕ
  pub apps_ready : Bool
  pub operate : Map Text HostOperate
  pub net : NetworkManager
  pub stored_hosts : Map Text HostEntry
  pub stored_apps : Map Text App
  pub bumped : List Text
  pub tick : ℕ

pub data Fault : Type 0 where
  write_failed read_failed network_failed : Fault

abbrev pub Outcome : Type 0
Outcome = Option Fault × ZoneState

-- if err := …; err != nil { return err }
infixl 5 ◌then_do◌
abbrev pub ◌then_do◌ : Outcome → (ZoneState → Outcome) → Outcome
(none, s) then_do next = next s
(some e, s) then_do next = (some e, s)

abbrev pub ticked : ZoneState → ZoneState
ticked s = record s { tick = suc s.tick }

abbrev pub put_app : App → ZoneState → ZoneState
put_app app s = record s { apps = insert app.name app s.apps }

abbrev pub put_host : Text → HostEntry → ZoneState → ZoneState
put_host id h s = record s { hosts = insert id h s.hosts }

-- `gAppInstanceSet.Flush`, for an app as it stands in the set.
unfoldable pub flush_app : Outside → App → ZoneState → Outcome
flush_app out app s = elim (out.answer s.tick) [
  | none ↦ (some write_failed, ticked s)
  | some v ↦ (
    none,
    record (ticked s) {
      stored_apps = insert app.name app s.stored_apps;
      app_versions = insert app.name v s.app_versions;
    },
  )
]

-- The write of a host's record.
unfoldable pub write_host : Outside → Text → HostEntry → ZoneState → Outcome
write_host out id h s = elim (out.answer s.tick) [
  | none ↦ (some write_failed, ticked s)
  | some v ↦ (none, record (ticked s) { stored_hosts = insert id h s.stored_hosts })
]

-- `schedulerBumpRevision`: the app with its revision, raised once in a pass.
unfoldable pub bump_revision : App → List Text → App × List Text
bump_revision app bumped = if contains bumped app.name then (app, bumped) else (
  record app { deploy = record app.deploy { revision = (app.deploy.revision + 1) % 2 ^ 64 } },
  app.name ∷ bumped,
)

-- What is done to `app.Value.Deploy.StagesRoot().ReplicaStage(repId).Child(name, zonelet)`.
unfoldable pub at_replica_child : ℕ → Text → (Stage → Stage) → App → App
at_replica_child rep_id name f app =
    let root = stages_root app.deploy in
    let root' =
      on_children (at_replica_stage rep_id (on_children (at_child name owner_zonelet f))) root in
    record app { deploy = record app.deploy { stages = some root' } }

-- An instantaneous stage that carries the app's revision.
unfoldable pub stamp_stage : ℤ → ℕ → Text → Text → App → App
unfolding at_replica_child
stamp_stage now rep_id name msg app =
    at_replica_child rep_id name (λ st. at_revision app.deploy.revision (set_instant now msg st))
      app

-- `schedulerReconcileDeployRevision`: a failed write is only logged.
unfoldable pub reconcile_app : Outside → App → ZoneState → ZoneState
reconcile_app out app s =
    let (changed, d) = reconcile (out.clock s.tick) app.deploy in
    let app' = record app { deploy = d } in
    let t = put_app app' (ticked s) in if changed then (flush_app out app' t).1 else t

-- The pass leaves an app that is being deleted alone.
abbrev pub is_live : App → Bool
is_live app = not (app.action == op_action_delete)

abbrev pub is_unplaced : Replica → Bool
is_unplaced rep = rep.host_id == []

-- The test for the app that the pass schedules.
unfoldable pub needs_host : App → Bool
needs_host app = ltb (length app.replicas) app.replica_cap || any is_unplaced app.replicas

-- The names of the live apps in the set's order: `instanceMap`.
unfoldable pub live_names : Map Text App → List Text
live_names [] = []
live_names ((name, app) ∷ rest) =
    let later = live_names rest in if is_live app then name ∷ later else later

-- `activeInstance`
unfoldable pub active_name : Map Text App → Option Text
unfolding needs_host
active_name [] = none
active_name ((name, app) ∷ rest) =
    let later = active_name rest in if is_live app && needs_host app then some name else later

-- `hostCpuUsedMc`
unfoldable pub host_cpu_used_mc : HostReport → ℤ
host_cpu_used_mc st = quot_ℤ (add64 st.cpu_sys st.cpu_user) (pos 60)
