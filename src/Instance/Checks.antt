-- ===== src/Instance/Checks.antt =====
-- What a deployment requests, and the checks of a spec in it.
use innerstack.Prelude.{
  ℕ, Bool, true, false, not, ◌&&◌, List, [], ◌∷◌, Option, none, some, Text, bytes, if◌then◌else◌,
  ◌==◌, text_key, eqb, any,
}
use innerstack.Prelude.Map.{lookup, insert}
use innerstack.Config.{
  SpecConfigItems, DeployConfigItems, no_deploy, TaskTrigger, validate_task_trigger, validate_item,
  validate_deploy_config_items, no_spec, spec_then,
}
use innerstack.Stages as stages
use innerstack.Instance.Packages.{validate_package_dependencies}
use innerstack.Instance.Names.{dns_label_valid}
use innerstack.Instance.{
  Depend, AppSpec, AppDeploy, AppInstance, Entry, Outside, Op, returns, fails, Error,
  resources_required, spec_name_invalid, bad_version, bad_task, self_reference, no_dependency,
  bad_dependency, bad_config, pure, fail, guard, ◌>>=◌, ◌>>◌, ticked, read, load_instance,
  scan_instances,
}
use innerstack.Instance.Resources.{ParsedResources, Judged, accept, reject, parse_spec_resources}
use innerstack.Instance.Version.{resolve_version}

abbrev pub op_action_start : Text
op_action_start = bytes "start"

abbrev pub op_action_restart : Text
op_action_restart = bytes "restart"

-- AppInstanceSoftDeleteTTL, in milliseconds.
abbrev pub soft_delete_ttl : ℕ
soft_delete_ttl = 604_800_000

-- AppInstanceDeployRequest; a zero `replica_cap` stands for none.
pub record DeployRequest : Type 0 where
  pub name : Text
  pub spec : Option AppSpec
  pub deploy : Option AppDeploy
  pub replica_cap : ℕ

abbrev pub lift {ℓ} : {A : Type ℓ} → Judged A → Op A
lift (accept a) s = returns a s
lift (reject e) s = fails e s

abbrev pub no_error {ℓ} : {A : Type ℓ} → Option A → (A → Error) → Op (Unit {0})
no_error none f = pure tt
no_error (some e) f = fail (f e)

abbrev pub require {ℓ} : {A : Type ℓ} → Option A → Error → Op A
require none e = fail e
require (some a) e = pure a

unfoldable pub check_tasks : List TaskTrigger → Op (Unit {0})
check_tasks [] = pure tt
check_tasks (t ∷ rest) =
    no_error (validate_task_trigger (some t)) (λ e. bad_task) >> check_tasks rest

unfoldable pub check_configs : SpecConfigItems → Op (Unit {0})
check_configs no_spec = pure tt
check_configs (spec_then c rest) = no_error (validate_item c) bad_config >> check_configs rest

abbrev pub is_of_spec : Text → AppInstance → Bool
is_of_spec name inst = elim inst.spec [
  | none ↦ false
  | some spec ↦ not (spec.name == []) && spec.name == name
]

-- `validateAppDependencies`
unfoldable pub check_available : List AppInstance → List Text → Op (Unit {0})
check_available found [] = pure tt
check_available found (name ∷ rest) = do
  guard (not (name == [])) (no_dependency name)
  guard (any (is_of_spec name) found) (no_dependency name)
  check_available found rest

unfoldable pub validate_app_dependencies : Outside → List Text → Op (Unit {0})
unfolding check_available scan_instances
validate_app_dependencies out [] s = returns tt s
validate_app_dependencies out (name ∷ rest) s =
    let (found, t) = scan_instances out s in check_available found (name ∷ rest) t

abbrev pub spec_name_of : AppInstance → Option Text
spec_name_of inst = elim inst.spec [ none ↦ none | some spec ↦ some spec.name ]

abbrev pub is_name : Text → Option Text → Bool
is_name name none = false
is_name name (some n) = n == name

-- `validateDeployDependencies`
unfoldable pub check_target : Text → Depend → Option Entry → Op (Unit {0})
check_target current dep none = fail (bad_dependency dep.instance_name)
check_target current dep (some e) = do
  guard (is_name dep.spec_name (spec_name_of e.value)) (bad_dependency dep.instance_name)
  guard (not (is_name current (spec_name_of e.value))) self_reference

unfoldable pub validate_deploy_dependencies : Outside → Text → List Depend → Op (Unit {0})
unfolding check_target load_instance
validate_deploy_dependencies out current [] = pure tt
validate_deploy_dependencies out current (dep ∷ rest) = do
  guard (not (dep.spec_name == [])) (bad_dependency [])
  guard (not (dep.instance_name == [])) (bad_dependency dep.spec_name)
  target ← load_instance out dep.instance_name
  check_target current dep target
  validate_deploy_dependencies out current rest

abbrev pub depends_of : Option AppDeploy → List Depend
depends_of none = []
depends_of (some d) = d.depends

abbrev pub configs_of : Option AppDeploy → DeployConfigItems
configs_of none = no_deploy
configs_of (some d) = d.configs

abbrev pub same_version : Option ℕ → Option (AppSpec × ℕ) → Bool
same_version none none = true
same_version (some v) (some p) = eqb v p.1
same_version none (some p) = false
same_version (some v) none = false

abbrev pub spec_version : Option (AppSpec × ℕ) → Option ℕ
spec_version none = none
spec_version (some p) = some p.1

-- `refreshAppSpec`, with SetCreateOnly if there was no spec and SetPrevVersion otherwise; its failure is
-- only logged.
unfoldable pub refresh_app_spec : Outside → Option ℕ → AppSpec → Op (Unit {0})
refresh_app_spec out prev spec s = elim (out.answer s.tick) [
  | none ↦ returns tt (ticked s)
  | some v ↦
      if same_version prev (lookup spec.name s.specs)
      then returns tt (record (ticked s) { specs = insert spec.name (spec, v) s.specs })
      else returns tt (ticked s)
]

abbrev pub version_in : Option (AppSpec × ℕ) → Option Text
version_in none = none
version_in (some p) = some p.0.version

-- The checks after those of the resources, and the spec that is kept.
unfoldable pub check_rest :
    Outside
    → Option AppDeploy
    → AppSpec
    → Option (AppSpec × ℕ)
    → Text
    → stages.Resources
    → ParsedResources
    → Op (AppSpec × ParsedResources)
unfolding check_tasks check_configs validate_app_dependencies validate_deploy_dependencies
    refresh_app_spec
check_rest out deploy spec prev version resources parsed = do
  check_tasks spec.tasks
  check_configs spec.configs
  validate_app_dependencies out spec.depends
  validate_deploy_dependencies out spec.name (depends_of deploy)
  no_error (validate_deploy_config_items spec.configs (configs_of deploy)) bad_config
  validate_package_dependencies out spec.packages
  let checked = record spec { version = version; resources = some resources }
  refresh_app_spec out (spec_version prev) checked
  pure (checked, parsed)

-- The checks of a request's spec, which give it its version and normal resources, and their ranges.
unfoldable pub check_spec : Outside → Option AppDeploy → AppSpec → Op (AppSpec × ParsedResources)
unfolding check_rest resolve_version parse_spec_resources
check_spec out deploy spec = do
  guard (dns_label_valid spec.name) spec_name_invalid
  prev ← read out (λ s. lookup spec.name s.specs)
  version ←
      require
        (resolve_version out.semver_is_valid out.semver_compare spec.version (version_in prev))
        bad_version
  given ← require spec.resources resources_required
  let resources = stages.normalize_legacy given
  parsed ← lift (parse_spec_resources out.parse_cpus out.parse_bytes resources)
  check_rest out deploy spec prev version resources parsed
