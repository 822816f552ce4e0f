-- ===== src/Instance/Handlers.antt =====
-- The handlers `AppInstanceDeploy` and `AppInstanceDelete`.
use innerstack.Prelude.{
  ℕ, Bool, true, false, not, ◌||◌, List, [], Option, none, some, Text, if◌then◌else◌, ◌==◌,
  text_key, number_key, any, is_some,
}
use innerstack.Prelude.Map.{lookup, insert}
use innerstack.ZoneLoop.{op_action_delete}
use innerstack.ZoneLoop.Pass.{is_newer}
use innerstack.Instance.Names.{dns_label_valid}
use innerstack.Instance.{
  AppDeploy, AppInstance, Entry, Outside, Op, returns, fails, permission_denied, not_leader,
  name_required, spec_required, not_found, bad_name, name_in_use, is_deleted, pure, fail, guard,
  ◌>>=◌, ◌>>◌, load_instance, scan_instances, write_instance, create_instance,
}
use innerstack.Instance.Resources.{ParsedResources, no_resources}
use innerstack.Instance.Refs.{depend_names, update_reverse_refs}
use innerstack.Instance.Changes.{or_empty, updated_instance, created_instance}
use innerstack.Instance.Checks.{soft_delete_ttl, DeployRequest, lift, check_spec}

-- A deployment that was soft-deleted, which is read-only.
unfoldable pub is_read_only : Option AppDeploy → Bool
is_read_only none = false
is_read_only (some d) = d.action == op_action_delete

-- The failure of `updateDependencyReverseRefs` is only logged.
unfoldable pub try_reverse_refs : Outside → Text → List Text → List Text → Op (Unit {0})
unfolding update_reverse_refs
try_reverse_refs out name prev next s = elim (update_reverse_refs out name prev next s) [
  | returns u t ↦ returns tt t
  | fails e t ↦ returns tt t
]

-- The previous names are taken from `existingByName`, which is the instance that was changed.
unfoldable pub update_instance : Outside → DeployRequest → ParsedResources → Entry → Op (Unit {0})
unfolding is_read_only updated_instance write_instance depend_names try_reverse_refs
update_instance out req parsed existing = do
  guard (not (is_read_only existing.value.deploy)) (is_deleted req.name)
  inst ← lift (updated_instance out req parsed existing.value)
  v ← write_instance out inst.name inst existing.version none
  try_reverse_refs out inst.name (depend_names inst.deploy) (depend_names inst.deploy)

-- `validateInstanceNameUnique`
unfoldable pub validate_name_unique : Outside → Text → Op (Unit {0})
unfolding load_instance scan_instances
validate_name_unique out name = do
  found ← load_instance out name
  guard (not (is_some found)) (name_in_use name)
  others ← λ s. returns (scan_instances out s).0 (scan_instances out s).1
  guard (not (any (λ (inst : AppInstance). inst.name == name) others)) (name_in_use name)

unfoldable pub add_instance : Outside → DeployRequest → ParsedResources → Op (Unit {0})
unfolding validate_name_unique created_instance create_instance depend_names try_reverse_refs
add_instance out req parsed = do
  validate_name_unique out req.name
  inst ← lift (created_instance out req parsed)
  v ← create_instance out inst.name inst
  try_reverse_refs out inst.name [] (depend_names inst.deploy)

-- The guards of both handlers, in their order.
unfoldable pub check_call : Outside → Text → Op (Unit {0})
check_call out name = do
  guard out.allowed permission_denied
  guard out.is_leader not_leader
  guard (not (name == [])) name_required
  guard (dns_label_valid name) (bad_name name)

abbrev pub ask_refresh : Op (Unit {0})
ask_refresh s = returns tt (record s { force_refresh = true })

-- The spec that is kept and its ranges.
unfoldable pub check_request : Outside → DeployRequest → Op (DeployRequest × ParsedResources)
unfolding check_spec
check_request out req = elim req.spec [
  | none ↦ pure (req, no_resources)
  | some spec ↦ check_spec out req.deploy spec >>= λ p. pure (record req { spec = some p.0 }, p.1)
]

abbrev pub change_instance :
    Outside → DeployRequest → ParsedResources → Option Entry → Op (Unit {0})
change_instance out req p none = add_instance out req p
change_instance out req p (some e) = update_instance out req p e

-- `AppInstanceDeploy`
unfoldable pub app_instance_deploy : Outside → DeployRequest → Op (Unit {0})
unfolding check_call load_instance check_request update_instance add_instance
app_instance_deploy out req = do
  check_call out req.name
  existing ← load_instance out req.name
  guard (is_some existing || is_some req.spec) spec_required
  p ← check_request out req
  change_instance out p.0 p.1 existing
  ask_refresh

abbrev pub cached_version : Option (AppInstance × ℕ) → Option ℕ
cached_version none = none
cached_version (some p) = some p.1

-- The set in memory takes the new version at once.
unfoldable pub store_cached : AppInstance → ℕ → Op (Unit {0})
unfolding is_newer
store_cached inst v s =
    if is_newer v (cached_version (lookup inst.name s.cached))
    then returns tt (record s { cached = insert inst.name (inst, v) s.cached })
    else returns tt s

abbrev pub deleted : AppInstance → AppInstance
deleted inst = record inst {
  deploy = some (record (or_empty inst.deploy) { action = op_action_delete });
}

-- `AppInstanceDelete`
unfoldable pub delete_entry : Outside → Text → Option Entry → Op (Unit {0})
unfolding is_read_only write_instance store_cached
delete_entry out name none = fail not_found
delete_entry out name (some e) = do
  guard (not (is_read_only e.value.deploy)) (is_deleted name)
  v ← write_instance out name (deleted e.value) e.version (some soft_delete_ttl)
  store_cached (deleted e.value) v
  ask_refresh

unfoldable pub app_instance_delete : Outside → Text → Op (Unit {0})
unfolding check_call load_instance delete_entry
app_instance_delete out name = do
  check_call out name
  existing ← load_instance out name
  delete_entry out name existing

-- The calls that change an app's instance.
pub data Call : Type 0 where
  deploy : DeployRequest → Call
  delete : Text → Call

abbrev pub called : Call → Text
called (deploy req) = req.name
called (delete name) = name

unfoldable pub handle : Outside → Call → Op (Unit {0})
unfolding app_instance_deploy app_instance_delete
handle out (deploy req) = app_instance_deploy out req
handle out (delete name) = app_instance_delete out name
