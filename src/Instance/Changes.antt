-- ===== src/Instance/Changes.antt =====
-- The instance that a request writes: the pure part of `AppInstanceDeploy`.
use innerstack.Prelude.{
  ℕ, suc, ◌%◌, ◌^◌, not, ◌||◌, List, [], ◌∷◌, Option, none, some, Text, if◌then◌else◌, ◌==◌,
  text_key, number_key, is_some, min, max,
}
use innerstack.Prelude.Int.{pos}
use innerstack.Config.{DeployConfigItems, no_deploy, deploy_then}
use innerstack.Stages as stages
use innerstack.ZoneLoop.{app_replica_cap_max}
use innerstack.Instance.{Depend, AppSpec, AppDeploy, AppInstance, Outside, cannot_override}
use innerstack.Instance.Resources.{
  ParsedResources, Judged, accept, reject, parse_spec_resources, Asked, asked_of, has_override,
  update_limits, create_limits, ◌>>=◌,
}
use innerstack.Instance.Fill.{resolve_config}
use innerstack.Instance.Checks.{op_action_start, op_action_restart, DeployRequest}

-- `&AppDeploy{}`
abbrev pub or_empty : Option AppDeploy → AppDeploy
or_empty (some d) = d
or_empty none = record {
  action = [];
  cpu_limit = pos 0;
  memory_limit = pos 0;
  volume_limit = pos 0;
  replica_cap = 0;
  configs = no_deploy;
  depends = [];
  progress = record { revision = 0; stages = none };
}

-- The spec and the ranges of an update: a request that changes limits without a new spec takes them
-- from the spec that the instance has, which is made normal.
unfoldable pub update_ranges :
    Outside
    → DeployRequest
    → ParsedResources
    → Option AppSpec
    → Judged (Option AppSpec × ParsedResources)
unfolding parse_spec_resources
update_ranges out req parsed spec =
    if is_some req.spec || not (has_override (asked_of req.deploy))
    then accept (spec, parsed)
    else elim spec [
      | none ↦ reject cannot_override
      | some sp ↦ elim sp.resources [
        | none ↦ reject cannot_override
        | some r ↦
            parse_spec_resources out.parse_cpus out.parse_bytes (stages.normalize_legacy r) >>= λ p.
            accept (some (record sp { resources = some (stages.normalize_legacy r) }), p)
      ]
    ]

abbrev pub with_configs : DeployConfigItems → AppDeploy → AppDeploy
with_configs no_deploy d = d
with_configs (deploy_then c rest) d = record d { configs = deploy_then c rest }

abbrev pub with_depends : List Depend → AppDeploy → AppDeploy
with_depends [] d = d
with_depends (x ∷ rest) d = record d { depends = x ∷ rest }

abbrev pub with_action : Text → AppDeploy → AppDeploy
with_action [] d = d
with_action (c ∷ rest) d = record d {
  action = if c ∷ rest == op_action_restart then op_action_start else c ∷ rest;
}

abbrev pub with_cap : ℕ → AppDeploy → AppDeploy
with_cap n d = if n == 0 then d else record d { replica_cap = min app_replica_cap_max n }

-- What a request sets of the rest of the deployment.
unfoldable pub apply_request : DeployRequest → AppDeploy → AppDeploy
apply_request req d = elim req.deploy [
  | none ↦ with_cap req.replica_cap d
  | some asked ↦
      with_depends asked.depends
        (with_action asked.action (with_configs asked.configs (with_cap req.replica_cap d)))
]

-- The next revision, a 64-bit number.
abbrev pub next_revision : AppDeploy → AppDeploy
next_revision d = record d {
  progress = record d.progress { revision = suc d.progress.revision % 2 ^ 64 };
}

abbrev pub mark_progress : Outside → AppDeploy → AppDeploy
mark_progress out d = record d {
  progress =
      stages.mark_pre_host (out.clock 0) (out.clock 1) (out.clock 2) (out.clock 3) d.progress;
}

abbrev pub pick_spec : Option AppSpec → Option AppSpec → Option AppSpec
pick_spec (some spec) old = some spec
pick_spec none old = old

-- The instance that an update writes. `req.spec` is the spec with its version and normal resources.
unfoldable pub updated_instance :
    Outside → DeployRequest → ParsedResources → AppInstance → Judged AppInstance
unfolding update_ranges update_limits apply_request resolve_config
updated_instance out req parsed inst =
    update_ranges out req parsed (pick_spec req.spec inst.spec) >>= λ found.
    update_limits (is_some req.spec) (asked_of req.deploy) found.1 (or_empty inst.deploy)
    >>= λ limited. accept (record inst {
      spec = found.0;
      deploy = some (
          mark_progress out
            (next_revision (resolve_config out.generated found.0 (apply_request req limited))));
    })

abbrev pub base_deploy : ℕ → Asked → AppDeploy
base_deploy cap_asked limits = record (or_empty none) {
  action = op_action_start;
  cpu_limit = limits.cpu;
  memory_limit = limits.mem;
  volume_limit = limits.vol;
  replica_cap = max 1 (min app_replica_cap_max cap_asked);
  progress = record { revision = 1; stages = none };
}

-- The deployment of a new instance.
unfoldable pub new_deploy : DeployRequest → Asked → AppDeploy
new_deploy req limits = elim req.deploy [
  | none ↦ base_deploy req.replica_cap limits
  | some asked ↦
      with_depends asked.depends (with_configs asked.configs (base_deploy req.replica_cap limits))
]

unfoldable pub created_instance : Outside → DeployRequest → ParsedResources → Judged AppInstance
unfolding create_limits new_deploy resolve_config
created_instance out req parsed = create_limits req.deploy parsed >>= λ limits. accept (record {
  name = req.name;
  spec = req.spec;
  deploy = some (mark_progress out (resolve_config out.generated req.spec (new_deploy req limits)));
  ref_by_instances = [];
})
