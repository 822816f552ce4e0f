-- ===== src/Instance/Ends.antt =====
-- What holds where a call ends, and the calls that leave the instances as they are.
use innerstack.Prelude.{
  ◌||◌, ℕ, is_some, ◌≡◌, refl, ◌∙◌, Bool, true, false, not, List, [], ◌∷◌, Option, none, some, Text,
  if◌then◌else◌, by_if, by_option, any, ◌==◌, text_key,
}
use innerstack.Prelude.Map.{lookup, insert}
use innerstack.Config.{
  SpecConfigItems, no_spec, spec_then, TaskTrigger, validate_task_trigger, validate_item,
}
use innerstack.Instance.Packages.{
  validate_package_dependencies, check_packages, versions_of, version_match, is_nil,
}
use innerstack.Instance.Names.{dns_label_valid}
use innerstack.Instance.{
  SpecPackage, Package, package_invalid, Depend, AppSpec, AppInstance, Entry, State, Outside, Op,
  Ran, returns, fails, Error, store_failed, permission_denied, not_leader, name_required, bad_name,
  no_dependency, bad_dependency, self_reference, name_in_use, bad_task, bad_config, guard,
  ◌then_run◌, ticked, read, load_instance, scan_instances,
}
use innerstack.Instance.Checks.{
  require, no_error, same_version, is_of_spec, is_name, spec_name_of, check_tasks, check_configs,
  check_available, validate_app_dependencies, check_target, validate_deploy_dependencies,
  refresh_app_spec,
}
use innerstack.Instance.Handlers.{validate_name_unique, check_call}

-- `P` where a call returns, and `Q` where it fails.
unfoldable pub Ends {ℓ κ} :
    {A : Type ℓ} → (A → State → Type κ) → (Error → State → Type κ) → Ran A → Type κ
Ends P Q (returns a t) = P a t
Ends P Q (fails e t) = Q e t

pub then_run-Ends {ℓ κ ι} :
    {A : Type ℓ} {B : Type κ} (R : A → State → Type ι) (P : B → State → Type ι)
    (Q : Error → State → Type ι) (r : Ran A) (f : A → Op B)
    → Ends R Q r
    → ((a : A) (u : State) → R a u → Ends P Q (f a u))
    → Ends P Q (r then_run f)
unfolding Ends
then_run-Ends R P Q (returns a u) f h g = g a u h
then_run-Ends R P Q (fails e u) f h g = h

-- A call that leaves the instances of `s` as they are.
abbrev pub QuietAt {ℓ} : {A : Type ℓ} → State → Ran A → Type 0
QuietAt s r = Ends (λ a t. t.instances ≡ s.instances) (λ e t. t.instances ≡ s.instances) r

abbrev pub Quiet {ℓ} : {A : Type ℓ} → Op A → Type 0
Quiet m = (s : State) → QuietAt s (m s)

pub after_quiet {ℓ κ ι} :
    {A : Type ℓ} {B : Type κ} (P : B → State → Type ι) (Q : Error → State → Type ι) (s : State)
    (r : Ran A) (f : A → Op B)
    → QuietAt s r
    → ((e : Error) (u : State) → u.instances ≡ s.instances → Q e u)
    → ((a : A) (u : State) → u.instances ≡ s.instances → Ends P Q (f a u))
    → Ends P Q (r then_run f)
unfolding Ends
after_quiet P Q s (returns a u) f h q g = g a u h
after_quiet P Q s (fails e u) f h q g = q e u h

moved {ℓ} :
    {A : Type ℓ} (s u : State) (r : Ran A) → u.instances ≡ s.instances → QuietAt u r → QuietAt s r
unfolding Ends
moved s u (returns a t) h q = q ∙ h
moved s u (fails e t) h q = q ∙ h

pub then_run-QuietAt {ℓ κ} :
    {A : Type ℓ} {B : Type κ} (s : State) (r : Ran A) (f : A → Op B)
    → QuietAt s r
    → ((a : A) → Quiet (f a))
    → QuietAt s (r then_run f)
unfolding Ends
then_run-QuietAt s (returns a u) f h g = moved s u (f a u) h (g a u)
then_run-QuietAt s (fails e u) f h g = h

pub guard-Quiet : (b : Bool) (e : Error) → Quiet (guard b e)
unfolding Ends
guard-Quiet true e s = refl
guard-Quiet false e s = refl

pub no_error-Quiet {ℓ} : {A : Type ℓ} (o : Option A) (f : A → Error) → Quiet (no_error o f)
unfolding Ends
no_error-Quiet none f s = refl
no_error-Quiet (some e) f s = refl

pub require-Quiet {ℓ} : {A : Type ℓ} (o : Option A) (e : Error) → Quiet (require o e)
unfolding Ends
require-Quiet none e s = refl
require-Quiet (some a) e s = refl

pub read-Quiet {ℓ} : {A : Type ℓ} (out : Outside) (f : State → A) → Quiet (read out f)
unfolding Ends
read-Quiet {A} out f s =
    by_if {A = Ran A} (λ r. QuietAt s r) (out.read_fails s.tick) (fails store_failed (ticked s))
      (returns (f s) (ticked s)) (λ h. refl) (λ h. refl)

pub load_instance-Quiet : (out : Outside) (name : Text) → Quiet (load_instance out name)
unfolding Ends load_instance
load_instance-Quiet out [] s = refl
load_instance-Quiet out (c ∷ rest) s =
    read-Quiet out (λ (t : State). lookup (c ∷ rest) t.instances) s

pub check_tasks-Quiet : (tasks : List TaskTrigger) → Quiet (check_tasks tasks)
unfolding Ends check_tasks
check_tasks-Quiet [] s = refl
check_tasks-Quiet (t ∷ rest) s =
    then_run-QuietAt s (no_error (validate_task_trigger (some t)) (λ e. bad_task) s) _
      (no_error-Quiet _ _ s) (λ u. check_tasks-Quiet rest)

pub check_configs-Quiet : (fields : SpecConfigItems) → Quiet (check_configs fields)
unfolding Ends check_configs
check_configs-Quiet no_spec s = refl
check_configs-Quiet (spec_then c rest) s =
    then_run-QuietAt s (no_error (validate_item c) bad_config s) _ (no_error-Quiet _ _ s)
      (λ u. check_configs-Quiet rest)

check_available-Quiet :
    (found : List AppInstance) (depends : List Text) → Quiet (check_available found depends)
unfolding Ends check_available
check_available-Quiet found [] s = refl
check_available-Quiet found (name ∷ rest) s =
    then_run-QuietAt s (guard (not (name == [])) (no_dependency name) s) _ (guard-Quiet _ _ s)
      (λ u t.
        then_run-QuietAt t (guard (any (is_of_spec name) found) (no_dependency name) t) _
          (guard-Quiet _ _ t) (λ v. check_available-Quiet found rest))

pub validate_app_dependencies-Quiet :
    (out : Outside) (depends : List Text) → Quiet (validate_app_dependencies out depends)
unfolding Ends validate_app_dependencies scan_instances
validate_app_dependencies-Quiet out [] s = refl
validate_app_dependencies-Quiet out (name ∷ rest) s =
    check_available-Quiet (scan_instances out s).0 (name ∷ rest) (ticked s)

check_target-Quiet :
    (current : Text) (dep : Depend) (target : Option Entry)
    → Quiet (check_target current dep target)
unfolding Ends check_target
check_target-Quiet current dep none s = refl
check_target-Quiet current dep (some e) s =
    then_run-QuietAt s
      (guard (is_name dep.spec_name (spec_name_of e.value)) (bad_dependency dep.instance_name) s) _
      (guard-Quiet _ _ s)
      (λ u. guard-Quiet (not (is_name current (spec_name_of e.value))) self_reference)

pub validate_deploy_dependencies-Quiet :
    (out : Outside) (current : Text) (depends : List Depend)
    → Quiet (validate_deploy_dependencies out current depends)
unfolding Ends validate_deploy_dependencies
validate_deploy_dependencies-Quiet out current [] s = refl
validate_deploy_dependencies-Quiet out current (dep ∷ rest) s =
    then_run-QuietAt s (guard (not (dep.spec_name == [])) (bad_dependency []) s) _
      (guard-Quiet _ _ s)
      (λ u1 t1.
        then_run-QuietAt t1
          (guard (not (dep.instance_name == [])) (bad_dependency dep.spec_name) t1) _
          (guard-Quiet _ _ t1)
          (λ u2 t2.
            then_run-QuietAt t2 (load_instance out dep.instance_name t2) _
              (load_instance-Quiet out _ t2)
              (λ target t3.
                then_run-QuietAt t3 (check_target current dep target t3) _
                  (check_target-Quiet current dep target t3)
                  (λ u4. validate_deploy_dependencies-Quiet out current rest))))

check_packages-Quiet :
    (found : List Package) (packages : List SpecPackage) → Quiet (check_packages found packages)
unfolding check_packages Ends
check_packages-Quiet found [] s = refl
check_packages-Quiet found (dep ∷ rest) s =
    then_run-QuietAt s (guard (not (dep.name == [])) (package_invalid dep.name) s) _
      (guard-Quiet _ _ s)
      (λ u t.
        then_run-QuietAt t
          (guard (not (is_nil (versions_of dep.name found))) (package_invalid dep.name) t) _
          (guard-Quiet _ _ t)
          (λ u2 t2.
            then_run-QuietAt t2
              (guard
                (dep.version == [] || any (version_match dep.version) (versions_of dep.name found))
                (package_invalid dep.name) t2)
              _ (guard-Quiet _ _ t2) (λ u3. check_packages-Quiet found rest)))

pub validate_package_dependencies-Quiet :
    (out : Outside) (packages : List SpecPackage)
    → Quiet (validate_package_dependencies out packages)
unfolding validate_package_dependencies Ends
validate_package_dependencies-Quiet out [] s = refl
validate_package_dependencies-Quiet out (dep ∷ rest) s =
    check_packages-Quiet (if out.read_fails s.tick then [] else s.packages) (dep ∷ rest) (ticked s)

pub refresh_app_spec-Quiet :
    (out : Outside) (prev : Option ℕ) (spec : AppSpec) → Quiet (refresh_app_spec out prev spec)
unfolding Ends refresh_app_spec
refresh_app_spec-Quiet out prev spec s =
    by_option {A = ℕ} {B = Ran (Unit {0})} (λ r. QuietAt s r) (out.answer s.tick)
      (returns tt (ticked s))
      (λ v.
        if same_version prev (lookup spec.name s.specs)
        then returns tt (record (ticked s) { specs = insert spec.name (spec, v) s.specs })
        else returns tt (ticked s))
      (λ h. refl)
      (λ v h.
        by_if {A = Ran (Unit {0})} (λ r. QuietAt s r) (same_version prev (lookup spec.name s.specs))
          (returns tt (record (ticked s) { specs = insert spec.name (spec, v) s.specs }))
          (returns tt (ticked s)) (λ q. refl) (λ q. refl))

pub validate_name_unique-Quiet :
    (out : Outside) (name : Text) → Quiet (validate_name_unique out name)
unfolding validate_name_unique scan_instances
validate_name_unique-Quiet out name s =
    then_run-QuietAt s (load_instance out name s) _ (load_instance-Quiet out name s) (λ found t1.
      then_run-QuietAt t1 (guard (not (is_some found)) (name_in_use name) t1) _ (guard-Quiet _ _ t1)
        (λ u t2.
          guard-Quiet
            (not (any (λ (inst : AppInstance). inst.name == name) (scan_instances out t2).0))
            (name_in_use name) (ticked t2)))

pub check_call-Quiet : (out : Outside) (name : Text) → Quiet (check_call out name)
unfolding check_call
check_call-Quiet out name s =
    then_run-QuietAt s (guard out.allowed permission_denied s) _ (guard-Quiet _ _ s) (λ u1 t1.
      then_run-QuietAt t1 (guard out.is_leader not_leader t1) _ (guard-Quiet _ _ t1) (λ u2 t2.
        then_run-QuietAt t2 (guard (not (name == [])) name_required t2) _ (guard-Quiet _ _ t2)
          (λ u3. guard-Quiet (dns_label_valid name) (bad_name name))))
