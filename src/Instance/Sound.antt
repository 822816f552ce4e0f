-- ===== src/Instance/Sound.antt =====
-- The invariant of the instances in the data store: the limits lie in the ranges of the spec.
use innerstack.Prelude.{
  ℕ, ◌≡◌, refl, sym, subst, ◌∙◌, true, false, not, List, [], ◌∷◌, Option, none, some, Text, by_if,
  by_option, ◌==◌, text_key, number_key, is_some,
}
use innerstack.Config.{DeployConfigItems, no_deploy, deploy_then}
use innerstack.Stages as stages
use innerstack.Instance.{Depend, AppSpec, AppDeploy, AppInstance, Outside}
use innerstack.Instance.Resources.{
  ParsedResources, Judged, accept, ◌>>=◌, parse_spec_resources, Asked, asked_of, has_override,
  update_limits, create_limits,
}
use innerstack.Instance.Fill.{resolve_config}
use innerstack.Instance.Checks.{DeployRequest}
use innerstack.Instance.Changes.{
  or_empty, with_cap, with_configs, with_action, with_depends, next_revision, mark_progress,
  apply_request, new_deploy, base_deploy, update_ranges, updated_instance, created_instance,
}
use innerstack.Instance.Ranges.{
  AllOrdered, AllSound, Limited, Gives, bind-Gives, value-Gives, create_limits-Limited,
  update_limits-Limited, update_limits_kept-Limited, parse_spec_resources-AllSound,
}

-- A spec whose resources are normal, with the ranges that they give.
abbrev pub HasRanges : Outside → Option AppSpec → ParsedResources → Type 0
HasRanges out spec p =
    (sp : AppSpec) × (r : stages.Resources) × (spec ≡ some sp)
    × (sp.resources ≡ some r)
    × (stages.normalize_legacy r ≡ r)
    × (parse_spec_resources out.parse_cpus out.parse_bytes r ≡ accept p)

-- An instance whose spec has ranges, and whose limits lie in them.
abbrev pub Allocated : Outside → AppInstance → Type 0
Allocated out inst =
    (p : ParsedResources) × (d : AppDeploy) × (HasRanges out inst.spec p)
    × (inst.deploy ≡ some d)
    × Limited p (asked_of (some d))

asked-with_cap : (n : ℕ) (d : AppDeploy) → asked_of (some (with_cap n d)) ≡ asked_of (some d)
asked-with_cap n d =
    by_if (λ e. asked_of (some e) ≡ asked_of (some d)) (n == 0) d _ (λ h. refl) (λ h. refl)

asked-with_configs :
    (c : DeployConfigItems) (d : AppDeploy) → asked_of (some (with_configs c d)) ≡ asked_of (some d)
asked-with_configs no_deploy d = refl
asked-with_configs (deploy_then c rest) d = refl

asked-with_action :
    (a : Text) (d : AppDeploy) → asked_of (some (with_action a d)) ≡ asked_of (some d)
asked-with_action [] d = refl
asked-with_action (c ∷ rest) d = refl

asked-with_depends :
    (l : List Depend) (d : AppDeploy) → asked_of (some (with_depends l d)) ≡ asked_of (some d)
asked-with_depends [] d = refl
asked-with_depends (x ∷ rest) d = refl

apply_request_limits :
    (req : DeployRequest) (d : AppDeploy)
    → asked_of (some (apply_request req d)) ≡ asked_of (some d)
unfolding apply_request
apply_request_limits req d =
    by_option (λ e. asked_of (some e) ≡ asked_of (some d)) req.deploy (with_cap req.replica_cap d)
      (λ asked.
        with_depends asked.depends
          (with_action asked.action (with_configs asked.configs (with_cap req.replica_cap d))))
      (λ h. asked-with_cap req.replica_cap d)
      (λ asked h.
        asked-with_depends asked.depends
          (with_action asked.action (with_configs asked.configs (with_cap req.replica_cap d)))
        ∙ asked-with_action asked.action (with_configs asked.configs (with_cap req.replica_cap d))
        ∙ asked-with_configs asked.configs (with_cap req.replica_cap d)
        ∙ asked-with_cap req.replica_cap d)

resolve_config_limits :
    (generated : Text → Option Text) (spec : Option AppSpec) (d : AppDeploy)
    → asked_of (some (resolve_config generated spec d)) ≡ asked_of (some d)
unfolding resolve_config
resolve_config_limits generated none d = refl
resolve_config_limits generated (some spec) d = refl

new_deploy_limits : (req : DeployRequest) (a : Asked) → asked_of (some (new_deploy req a)) ≡ a
unfolding new_deploy
new_deploy_limits req a =
    by_option (λ e. asked_of (some e) ≡ a) req.deploy (base_deploy req.replica_cap a)
      (λ asked.
        with_depends asked.depends (with_configs asked.configs (base_deploy req.replica_cap a)))
      (λ h. refl)
      (λ asked h.
        asked-with_depends asked.depends
          (with_configs asked.configs (base_deploy req.replica_cap a))
        ∙ asked-with_configs asked.configs (base_deploy req.replica_cap a))

pub HasRanges-AllOrdered :
    (out : Outside) (spec : Option AppSpec) (p : ParsedResources)
    → HasRanges out spec p
    → AllOrdered p
HasRanges-AllOrdered out spec p (sp, r, h_spec, h_res, normal, h_parse) =
    let sound =
      value-Gives AllSound (parse_spec_resources-AllSound out.parse_cpus out.parse_bytes r)
        h_parse in
    (sound.0.1, sound.1.1, sound.2.1)

pub created_instance-Allocated :
    (out : Outside) (req : DeployRequest) (p : ParsedResources)
    → HasRanges out req.spec p
    → Gives (Allocated out) (created_instance out req p)
unfolding created_instance
created_instance-Allocated out req p ranges = bind-Gives _ (create_limits req.deploy p) _ (λ a h.
    let limits : asked_of (some (resolve_config out.generated req.spec (new_deploy req a))) ≡ a =
      resolve_config_limits out.generated req.spec (new_deploy req a) ∙ new_deploy_limits req a in
    (
      p,
      _,
      ranges,
      refl,
      subst (Limited p) (sym limits) (
          value-Gives (Limited p)
            (create_limits-Limited req.deploy p (HasRanges-AllOrdered out req.spec p ranges)) h),
    ))

-- The ranges and the limits that an update ends with.
finish_update :
    (out : Outside) (req : DeployRequest) (inst : AppInstance) (spec : Option AppSpec)
    (p : ParsedResources) (r : Judged AppDeploy)
    → HasRanges out spec p
    → Gives (λ e. Limited p (asked_of (some e))) r
    → Gives (Allocated out) (
        r >>= λ limited. accept (record inst {
          spec = spec;
          deploy = some (
              mark_progress out
                (next_revision (resolve_config out.generated spec (apply_request req limited))));
        }))
finish_update out req inst spec p r ranges limited = bind-Gives _ r _ (λ d h.
    let same : asked_of (some (resolve_config out.generated spec (apply_request req d)))
        ≡ asked_of (some d) =
      resolve_config_limits out.generated spec (apply_request req d) ∙ apply_request_limits req d in
    (
      p,
      _,
      ranges,
      refl,
      subst (Limited p) (sym same) (value-Gives (λ e. Limited p (asked_of (some e))) limited h),
    ))

update_spec-Allocated :
    (out : Outside) (req : DeployRequest) (p : ParsedResources) (inst : AppInstance) (sp : AppSpec)
    → HasRanges out (some sp) p
    → Gives (Allocated out) (updated_instance out (record req { spec = some sp }) p inst)
unfolding updated_instance update_ranges
update_spec-Allocated out req p inst sp ranges =
    finish_update out (record req { spec = some sp }) inst (some sp) p
      (update_limits true (asked_of req.deploy) p (or_empty inst.deploy)) ranges
      (update_limits-Limited (asked_of req.deploy) p (or_empty inst.deploy)
        (HasRanges-AllOrdered out (some sp) p ranges))

update_limits_untouched :
    (asked : Asked) (p : ParsedResources) (d : AppDeploy)
    → not (has_override asked) ≡ true
    → update_limits false asked p d ≡ accept d
unfolding update_limits
update_limits_untouched asked p d h = rw h refl

-- What an update without a spec finds: the ranges of the spec, and limits within them.
abbrev Found : Outside → DeployRequest → AppInstance → Option AppSpec × ParsedResources → Type 0
Found out req inst found =
    (q : ParsedResources) × (HasRanges out found.0 q)
    × Gives (λ e. Limited q (asked_of (some e)))
        (update_limits false (asked_of req.deploy) found.1 (or_empty inst.deploy))

kept_limits :
    (req : DeployRequest) (q : ParsedResources) (inst : AppInstance) (d : AppDeploy)
    → AllOrdered q
    → inst.deploy ≡ some d
    → Limited q (asked_of (some d))
    → Gives
        (λ e. Limited q (asked_of (some e)))
        (update_limits false (asked_of req.deploy) q (or_empty inst.deploy))
kept_limits req q inst d ordered h_d kept =
    rw h_d (update_limits_kept-Limited false (asked_of req.deploy) q d ordered kept)

update_ranges-Found :
    (out : Outside) (req : DeployRequest) (p : ParsedResources) (inst : AppInstance)
    → Allocated out inst
    → Gives (Found out req inst) (update_ranges out (record req { spec = none }) p inst.spec)
unfolding update_ranges
update_ranges-Found out req p inst (q, d, (sp, r, h_spec, h_res, normal, h_parse), h_d, kept) =
    by_if (Gives (Found out req inst)) (not (has_override (asked_of req.deploy)))
      (accept (inst.spec, p)) _
      (λ none_asked. (
        q,
        (sp, r, h_spec, h_res, normal, h_parse),
        rw (update_limits_untouched (asked_of req.deploy) p (or_empty inst.deploy) none_asked, h_d)
            kept,
      ))
      (λ given.
        rw (h_spec, h_res, normal, h_parse)
          (
            q,
            (_, r, refl, refl, normal, h_parse),
            kept_limits req q inst d
                (HasRanges-AllOrdered out inst.spec q (sp, r, h_spec, h_res, normal, h_parse)) h_d
                kept,
          ))

update_kept-Allocated :
    (out : Outside) (req : DeployRequest) (p : ParsedResources) (inst : AppInstance)
    → Allocated out inst
    → Gives (Allocated out) (updated_instance out (record req { spec = none }) p inst)
unfolding updated_instance
update_kept-Allocated out req p inst sound =
    bind-Gives _ (update_ranges out (record req { spec = none }) p inst.spec) _ (λ found h.
      let (q, ranges, limited) =
        value-Gives (Found out req inst) (update_ranges-Found out req p inst sound) h in
      finish_update out (record req { spec = none }) inst found.0 q
        (update_limits false (asked_of req.deploy) found.1 (or_empty inst.deploy)) ranges limited)

by_spec :
    (out : Outside) (req : DeployRequest) (p : ParsedResources) (inst : AppInstance)
    (spec : Option AppSpec)
    → Allocated out inst
    → (is_some spec ≡ true → HasRanges out spec p)
    → Gives (Allocated out) (updated_instance out (record req { spec = spec }) p inst)
by_spec out req p inst none sound ranges = update_kept-Allocated out req p inst sound
by_spec out req p inst (some sp) sound ranges =
    update_spec-Allocated out req p inst sp (ranges refl)

-- An update, with a spec that has ranges or of an instance that has them.
pub updated_instance-Allocated :
    (out : Outside) (req : DeployRequest) (p : ParsedResources) (inst : AppInstance)
    → Allocated out inst
    → (is_some req.spec ≡ true → HasRanges out req.spec p)
    → Gives (Allocated out) (updated_instance out req p inst)
updated_instance-Allocated out req p inst sound ranges =
    by_spec out req p inst req.spec sound ranges
