-- ===== src/Stages.antt =====
-- pkg/inapi/app.go: the stages of an app's deployment, and the functions of
-- internal/zonelet/service_instance.go that move them to a new revision.
-- A nil stage is not represented; a pointer to a child, which the code changes in place, is the
-- function that changes it. A clock reading is an argument for each call of `stageNowMs`.
mod Examples
pub mod Reconcile
pub mod Legacy
use innerstack.Prelude.{
  ℕ, zero, suc, ◌+◌, ◌%◌, ◌^◌, ◌≡◌, Bool, true, false, not, ◌&&◌, ◌||◌, List, [], ◌∷◌, ◌++◌, Option,
  none, some, Text, bytes, if◌then◌else◌, ◌==◌, text_key, contains, leb, eqb,
}
use innerstack.Prelude.Int.{ℤ, pos, negsuc, add64}
use innerstack.Prelude.Map.{Map, lookup, insert}
use innerstack.Decimal.{decimal}

abbrev pub state_pending : Text
state_pending = bytes "pending"

abbrev pub state_running : Text
state_running = bytes "running"

abbrev pub state_success : Text
state_success = bytes "success"

abbrev pub state_failed : Text
state_failed = bytes "failed"

abbrev pub owner_zonelet : Text
owner_zonelet = bytes "zonelet"

abbrev pub name_deploy : Text
name_deploy = bytes "deploy"

abbrev pub name_req_validate : Text
name_req_validate = bytes "req_validate"

abbrev pub name_instance_persist : Text
name_instance_persist = bytes "instance_persist"

abbrev pub name_replica : Text
name_replica = bytes "replica"

abbrev pub attr_rep_id : Text
attr_rep_id = bytes "rep_id"

-- AppDeployStage but for its children.
pub record StageInfo : Type 0 where
  pub name : Text
  pub owner : Text
  pub revision : ℕ
  pub state : Text
  pub attempt : ℤ
  pub attrs : Map Text Text
  pub message : Text
  pub created : ℤ
  pub finished : ℤ

mutual
  pub data Stage : Type 0 where
    stage : StageInfo → Stages → Stage

  pub data Stages : Type 0 where
    no_stages : Stages
    stage_then : Stage → Stages → Stages

abbrev pub info : Stage → StageInfo
info (stage i below) = i

abbrev pub children : Stage → Stages
children (stage i below) = below

abbrev new_info : Text → Text → Text → Map Text Text → StageInfo
new_info name owner state attrs = record {
  name = name;
  owner = owner;
  revision = 0;
  state = state;
  attempt = pos 0;
  attrs = attrs;
  message = [];
  created = pos 0;
  finished = pos 0;
}

abbrev message_or : Text → StageInfo → Text
message_or msg i = if msg == [] then i.message else msg

abbrev is_unset : ℤ → Bool
is_unset (pos n) = eqb n 0
is_unset (negsuc n) = false

abbrev created_or : ℤ → StageInfo → ℤ
created_or now i = if is_unset i.created then now else i.created

unfoldable pub set_running : ℤ → Text → Stage → Stage
set_running now msg (stage i below) =
    stage
      (record i {
        attempt = if i.state == state_failed then add64 i.attempt (pos 1) else i.attempt;
        created = created_or now i;
        finished = pos 0;
        state = state_running;
        message = message_or msg i;
      })
      below

-- `now` is read for `Created`, if that is unset, and `later` for `Finished`.
unfoldable pub set_success : ℤ → ℤ → Text → Stage → Stage
set_success now later msg (stage i below) =
    stage
      (record i {
        created = created_or now i;
        finished = later;
        state = state_success;
        message = message_or msg i;
      })
      below

unfoldable pub set_failed : ℤ → ℤ → Text → Stage → Stage
set_failed now later msg (stage i below) =
    stage
      (record i {
        created = created_or now i;
        finished = later;
        state = state_failed;
        message = message_or msg i;
      })
      below

unfoldable pub set_instant : ℤ → Text → Stage → Stage
set_instant now msg (stage i below) =
    stage
      (record i {
        created = now;
        finished = now;
        state = state_success;
        message = message_or msg i;
      })
      below

-- `Find`: the first child with a name.
unfoldable pub find_child : Text → Stages → Option Stage
find_child name no_stages = none
find_child name (stage_then s rest) =
    let later = find_child name rest in if (info s).name == name then some s else later

-- What is done to `x.Child(name, owner)`: to the first child with the name, or to a new last one.
unfoldable pub at_child : Text → Text → (Stage → Stage) → Stages → Stages
at_child name owner f no_stages =
    stage_then (f (stage (new_info name owner state_pending []) no_stages)) no_stages
at_child name owner f (stage_then s rest) =
    let later = at_child name owner f rest in
    if (info s).name == name then stage_then (f s) rest else stage_then s later

is_replica_node : Text → Stage → Bool
is_replica_node want s =
    (info s).name == name_replica
    && (elim (lookup attr_rep_id (info s).attrs) [ none ↦ false | some id ↦ id == want ])

-- What is done to `x.ReplicaStage(repId)`.
unfoldable pub at_replica_stage : ℕ → (Stage → Stage) → Stages → Stages
unfolding is_replica_node
at_replica_stage rep_id f no_stages =
    stage_then
      (f (
        stage
          (new_info name_replica owner_zonelet state_pending ((attr_rep_id, decimal rep_id) ∷ []))
          no_stages))
      no_stages
at_replica_stage rep_id f (stage_then s rest) =
    let later = at_replica_stage rep_id f rest in
    if is_replica_node (decimal rep_id) s then stage_then (f s) rest else stage_then s later

unfoldable mutual
  pub set_revision_deep : ℕ → Stage → Stage
  set_revision_deep rev (stage i below) =
      stage (record i { revision = rev }) (set_revisions rev below)

  pub set_revisions : ℕ → Stages → Stages
  set_revisions rev no_stages = no_stages
  set_revisions rev (stage_then s rest) =
      stage_then (set_revision_deep rev s) (set_revisions rev rest)

unfoldable pub prune : (Text → Bool) → Stages → Stages
prune keep no_stages = no_stages
prune keep (stage_then s rest) =
    let kept = prune keep rest in if keep (info s).name then stage_then s kept else kept

abbrev pub prune_children : (Text → Bool) → Stage → Stage
prune_children keep (stage i below) = stage i (prune keep below)

-- AppDeploy, as far as its stages go.
pub record Deploy : Type 0 where
  pub revision : ℕ
  pub stages : Option Stage

unfoldable pub stages_root : Deploy → Stage
stages_root d = elim d.stages [
  | some root ↦ root
  | none ↦ stage (new_info name_deploy owner_zonelet [] []) no_stages
]

unfoldable pub at_revision : ℕ → Stage → Stage
at_revision rev (stage i below) = stage (record i { revision = rev }) below

-- `req_validate` starts with the call and ends now.
validated : ℕ → ℤ → ℤ → ℤ → Stage → Stage
unfolding set_success at_revision
validated rev started now later (stage i below) =
    at_revision rev (set_success now later [] (stage (record i { created = started }) below))

persisted : ℕ → ℤ → Stage → Stage
unfolding set_instant at_revision
persisted rev now s = at_revision rev (set_instant now [] s)

unfoldable pub on_children : (Stages → Stages) → Stage → Stage
on_children f (stage i below) = stage i (f below)

-- `appDeployStagesMarkPreHost`, at its readings of the clock.
unfoldable pub mark_pre_host : ℤ → ℤ → ℤ → ℤ → Deploy → Deploy
unfolding stages_root set_running at_child validated persisted on_children
mark_pre_host started now later last d =
    let root = set_running now [] (stages_root d) in
    let checked =
      on_children
        (at_child name_req_validate owner_zonelet (validated d.revision started now later)) root in
    record d {
      stages = some (
          on_children (at_child name_instance_persist owner_zonelet (persisted d.revision last))
            checked);
    }

-- AppDeployStageRelayedNames: the stages that the host reports.
abbrev pub relayed_names : List Text
relayed_names =
    bytes "host_recv"
    ∷ bytes "image_pull"
    ∷ bytes "pkg_download"
    ∷ bytes "provision"
    ∷ bytes "container_create"
    ∷ bytes "container_start"
    ∷ bytes "container_running"
    ∷ bytes "container_stop"
    ∷ bytes "container_destroy"
    ∷ bytes "inagent_boot"
    ∷ bytes "spec_load"
    ∷ bytes "task_run"
    ∷ []

abbrev pub is_local : Text → Bool
is_local name = not (contains relayed_names name)

unfoldable pub prune_replicas : Stages → Stages
unfolding prune
prune_replicas no_stages = no_stages
prune_replicas (stage_then s rest) =
    stage_then (if (info s).name == name_replica then prune_children is_local s else s)
      (prune_replicas rest)

-- `appDeployStagesReconcile`; the root that `StagesRoot` makes stays in any case.
unfoldable pub reconcile : ℤ → Deploy → Bool × Deploy
unfolding stages_root set_running on_children prune_replicas set_revision_deep
reconcile now d =
    let root = stages_root d in
    if leb d.revision (info root).revision then (false, record d { stages = some root }) else (
      true,
      record d {
        stages =
            some
              (set_revision_deep d.revision (on_children prune_replicas (set_running now [] root)));
      },
    )

-- AppSpecResources: one resource, with the range and the deprecated single value.
pub record Limits : Type 0 where
  pub low : Text
  pub high : Text
  pub legacy : Text

unfoldable pub norm_legacy_pair : Limits → Limits
norm_legacy_pair x =
    if x.low == [] && x.high == [] && not (x.legacy == [])
    then record { low = x.legacy; high = x.legacy; legacy = [] }
    else if x.low == [] && not (x.high == [])
    then record x { low = x.high; legacy = [] }
    else if x.high == [] && not (x.low == [])
    then record x { high = x.low; legacy = [] }
    else record x { legacy = [] }

pub record Resources : Type 0 where
  pub cpu : Limits
  pub memory : Limits
  pub volume : Limits

unfoldable pub normalize_legacy : Resources → Resources
unfolding norm_legacy_pair
normalize_legacy x = record {
  cpu = norm_legacy_pair x.cpu;
  memory = norm_legacy_pair x.memory;
  volume = norm_legacy_pair x.volume;
}
