-- ===== src/Instance/Checked.antt =====
-- What the checks of a request's spec ensure.
use innerstack.Prelude.{
  text_key, ℕ, ◌≡◌, refl, ◌∙◌, true, Option, none, some, Text, by_option, is_some,
}
use innerstack.Prelude.Map.{lookup}
use innerstack.Config.{validate_deploy_config_items}
use innerstack.Stages as stages
use innerstack.Stages.Legacy.{normalize_legacy_again}
use innerstack.Instance.Packages.{validate_package_dependencies}
use innerstack.Instance.Names.{dns_label_valid}
use innerstack.Instance.{
  AppSpec, AppDeploy, State, Outside, Op, Ran, returns, Error, spec_name_invalid, bad_version,
  resources_required, bad_config, pure, guard, ◌>>=◌, ◌then_run◌, read,
}
use innerstack.Instance.Resources as resources
use innerstack.Instance.Resources.{ParsedResources, no_resources, parse_spec_resources}
use innerstack.Instance.Version.{resolve_version}
use innerstack.Instance.Checks.{
  DeployRequest, lift, no_error, check_tasks, check_configs, validate_app_dependencies,
  validate_deploy_dependencies, depends_of, configs_of, require, check_rest, refresh_app_spec,
  spec_version, version_in, check_spec,
}
use innerstack.Instance.Handlers.{check_request}
use innerstack.Instance.Ends.{
  Ends, QuietAt, after_quiet, then_run-Ends, guard-Quiet, no_error-Quiet, require-Quiet, read-Quiet,
  check_tasks-Quiet, check_configs-Quiet, validate_app_dependencies-Quiet,
  validate_deploy_dependencies-Quiet, refresh_app_spec-Quiet, validate_package_dependencies-Quiet,
}
use innerstack.Instance.Sound.{HasRanges}

-- The spec has the ranges that were calculated, and the instances are those of before.
abbrev pub Checked : Outside → State → AppSpec × ParsedResources → State → Type 0
Checked out s q t = (HasRanges out (some q.0) q.1) × (t.instances ≡ s.instances)

abbrev pub Unchanged : State → Error → State → Type 0
Unchanged s e t = t.instances ≡ s.instances

after_check {ℓ} :
    {A : Type ℓ} (out : Outside) (s u : State) (r : Ran A) (f : A → Op (AppSpec × ParsedResources))
    → u.instances ≡ s.instances
    → QuietAt u r
    → ((a : A) (t : State) → t.instances ≡ s.instances → Ends (Checked out s) (Unchanged s) (f a t))
    → Ends (Checked out s) (Unchanged s) (r then_run f)
after_check out s u r f moved quiet next =
    after_quiet (Checked out s) (Unchanged s) u r f quiet (λ e t h. h ∙ moved)
      (λ a t h. next a t (h ∙ moved))

after_parse {ℓ} :
    {A : Type ℓ} (out : Outside) (s u : State) (r : resources.Judged A)
    (f : A → Op (AppSpec × ParsedResources))
    → u.instances ≡ s.instances
    → ((a : A) → r ≡ resources.accept a → Ends (Checked out s) (Unchanged s) (f a u))
    → Ends (Checked out s) (Unchanged s) (lift r u then_run f)
unfolding Ends
after_parse out s u (resources.accept a) f moved next = next a refl
after_parse out s u (resources.reject e) f moved next = moved

-- The steps after the ranges are known.
check_rest-Checked :
    (out : Outside) (deploy : Option AppDeploy) (spec : AppSpec) (prev : Option (AppSpec × ℕ))
    (version : Text) (given : stages.Resources) (parsed : ParsedResources) (s u : State)
    → parse_spec_resources out.parse_cpus out.parse_bytes (stages.normalize_legacy given)
      ≡ resources.accept parsed
    → u.instances ≡ s.instances
    → Ends
        (Checked out s)
        (Unchanged s)
        (check_rest out deploy spec prev version (stages.normalize_legacy given) parsed u)
unfolding check_rest Ends
check_rest-Checked out deploy spec prev version given parsed s u h_parse moved =
    after_check out s u (check_tasks spec.tasks u) _ moved (check_tasks-Quiet spec.tasks u)
      (λ a1 t1 h1.
        after_check out s t1 (check_configs spec.configs t1) _ h1
          (check_configs-Quiet spec.configs t1)
          (λ a2 t2 h2.
            after_check out s t2 (validate_app_dependencies out spec.depends t2) _ h2
              (validate_app_dependencies-Quiet out spec.depends t2)
              (λ a3 t3 h3.
                after_check out s t3
                  (validate_deploy_dependencies out spec.name (depends_of deploy) t3) _ h3
                  (validate_deploy_dependencies-Quiet out spec.name (depends_of deploy) t3)
                  (λ a4 t4 h4.
                    after_check out s t4
                      (no_error (validate_deploy_config_items spec.configs (configs_of deploy))
                        bad_config t4)
                      _ h4 (no_error-Quiet _ _ t4)
                      (λ a5 t5 h5.
                        after_check out s t5 (validate_package_dependencies out spec.packages t5) _
                          h5 (validate_package_dependencies-Quiet out spec.packages t5)
                          (λ a6 t6 h6.
                            after_check out s t6
                              (refresh_app_spec out (spec_version prev)
                                (record spec {
                                  version = version;
                                  resources = some (stages.normalize_legacy given);
                                })
                                t6)
                              _ h6 (refresh_app_spec-Quiet out _ _ t6)
                              (λ a7 t7 h7. (
                                (_, _, refl, refl, normalize_legacy_again given, h_parse),
                                h7,
                              ))))))))

pub check_spec-Checked :
    (out : Outside) (deploy : Option AppDeploy) (spec : AppSpec) (s : State)
    → Ends (Checked out s) (Unchanged s) (check_spec out deploy spec s)
unfolding check_spec
check_spec-Checked out deploy spec s =
    after_check out s s (guard (dns_label_valid spec.name) spec_name_invalid s) _ refl
      (guard-Quiet _ _ s)
      (λ a1 t1 h1.
        after_check out s t1 (read out (λ (t : State). lookup spec.name t.specs) t1) _ h1
          (read-Quiet out (λ (t : State). lookup spec.name t.specs) t1)
          (λ prev t2 h2.
            after_check out s t2
              (require
                (resolve_version out.semver_is_valid out.semver_compare spec.version
                  (version_in prev))
                bad_version t2)
              _ h2 (require-Quiet _ _ t2)
              (λ version t3 h3.
                after_check out s t3 (require spec.resources resources_required t3) _ h3
                  (require-Quiet _ _ t3)
                  (λ given t4 h4.
                    after_parse out s t4
                      (parse_spec_resources out.parse_cpus out.parse_bytes
                        (stages.normalize_legacy given))
                      _ h4
                      (λ parsed h_parse.
                        check_rest-Checked out deploy spec prev version given parsed s t4 h_parse
                          h4)))))

-- A spec in the request has ranges, and the rest of the request is kept.
abbrev pub CheckedRequest :
    Outside → DeployRequest → State → DeployRequest × ParsedResources → State → Type 0
CheckedRequest out req s q t =
    (is_some q.0.spec ≡ true → HasRanges out q.0.spec q.1)
    × (is_some req.spec ≡ is_some q.0.spec)
    × (q.0.name ≡ req.name)
    × (t.instances ≡ s.instances)

kept_request :
    (out : Outside) (req : DeployRequest) (s : State)
    → req.spec ≡ none
    → Ends (CheckedRequest out req s) (Unchanged s) (returns (req, no_resources) s)
unfolding Ends
kept_request out req s h = ((λ given. cc), refl, refl, refl)

new_request :
    (out : Outside) (req : DeployRequest) (s : State) (spec : AppSpec)
    (p : AppSpec × ParsedResources) (t : State)
    → req.spec ≡ some spec
    → Checked out s p t
    → Ends
        (CheckedRequest out req s)
        (Unchanged s)
        (returns (record req { spec = some p.0 }, p.1) t)
unfolding Ends
new_request out req s spec p t h checked = ((λ given. checked.0), rw h refl, refl, checked.1)

pub check_request-Checked :
    (out : Outside) (req : DeployRequest) (s : State)
    → Ends (CheckedRequest out req s) (Unchanged s) (check_request out req s)
unfolding check_request
check_request-Checked out req s =
    by_option {A = AppSpec} {B = Op (DeployRequest × ParsedResources)}
      (λ m. Ends (CheckedRequest out req s) (Unchanged s) (m s)) req.spec (pure (req, no_resources))
      (λ spec. check_spec out req.deploy spec >>= λ p. pure (record req { spec = some p.0 }, p.1))
      (λ h. kept_request out req s h)
      (λ spec h.
        then_run-Ends (Checked out s) (CheckedRequest out req s) (Unchanged s)
          (check_spec out req.deploy spec s) _ (check_spec-Checked out req.deploy spec s)
          (λ p t checked. new_request out req s spec p t h checked))
