-- ===== src/Instance/Revision.antt =====
-- The revision that an update writes.
use innerstack.Prelude.{
  ℕ, suc, ◌%◌, ◌^◌, ◌≡◌, refl, ap, ◌∙◌, Bool, not, ◌||◌, Option, none, some, Text, by_if, by_option,
  ◌==◌, text_key, number_key, is_some, List, [], ◌∷◌,
}
use innerstack.Prelude.Int.{ℤ}
use innerstack.Config.{DeployConfigItems, no_deploy, deploy_then}
use innerstack.Stages as stages
use innerstack.Instance.{Depend, AppSpec, AppDeploy, AppInstance, Outside}
use innerstack.Instance.Resources.{
  ParsedResources, accept, Asked, asked_of, has_override, update_limits, update_limit,
}
use innerstack.Instance.Fill.{resolve_config}
use innerstack.Instance.Checks.{DeployRequest}
use innerstack.Instance.Changes.{
  or_empty, with_cap, with_configs, with_action, with_depends, apply_request, update_ranges,
  updated_instance, pick_spec,
}
use innerstack.Instance.Ranges.{Gives, bind-Gives, value-Gives}

progress-with_cap : (n : ℕ) (d : AppDeploy) → (with_cap n d).progress ≡ d.progress
progress-with_cap n d =
    by_if (λ (e : AppDeploy). e.progress ≡ d.progress) (n == 0) d _ (λ h. refl) (λ h. refl)

progress-with_configs :
    (c : DeployConfigItems) (d : AppDeploy) → (with_configs c d).progress ≡ d.progress
progress-with_configs no_deploy d = refl
progress-with_configs (deploy_then c rest) d = refl

progress-with_action : (a : Text) (d : AppDeploy) → (with_action a d).progress ≡ d.progress
progress-with_action [] d = refl
progress-with_action (c ∷ rest) d = refl

progress-with_depends : (l : List Depend) (d : AppDeploy) → (with_depends l d).progress ≡ d.progress
progress-with_depends [] d = refl
progress-with_depends (x ∷ rest) d = refl

progress-apply_request :
    (req : DeployRequest) (d : AppDeploy) → (apply_request req d).progress ≡ d.progress
unfolding apply_request
progress-apply_request req d =
    by_option (λ (e : AppDeploy). e.progress ≡ d.progress) req.deploy (with_cap req.replica_cap d)
      (λ asked.
        with_depends asked.depends
          (with_action asked.action (with_configs asked.configs (with_cap req.replica_cap d))))
      (λ h. progress-with_cap req.replica_cap d)
      (λ asked h.
        progress-with_depends asked.depends
          (with_action asked.action (with_configs asked.configs (with_cap req.replica_cap d)))
        ∙ progress-with_action asked.action
            (with_configs asked.configs (with_cap req.replica_cap d))
        ∙ progress-with_configs asked.configs (with_cap req.replica_cap d)
        ∙ progress-with_cap req.replica_cap d)

progress-resolve_config :
    (generated : Text → Option Text) (spec : Option AppSpec) (d : AppDeploy)
    → (resolve_config generated spec d).progress ≡ d.progress
unfolding resolve_config
progress-resolve_config generated none d = refl
progress-resolve_config generated (some spec) d = refl

revision-mark :
    (a b c e : ℤ) (d : stages.Deploy) → (stages.mark_pre_host a b c e d).revision ≡ d.revision
unfolding stages.mark_pre_host
revision-mark a b c e d = refl

progress-update_limits :
    (has_spec : Bool) (asked : Asked) (p : ParsedResources) (d : AppDeploy)
    → Gives (λ (e : AppDeploy). e.progress ≡ d.progress) (update_limits has_spec asked p d)
unfolding update_limits
progress-update_limits has_spec asked p d =
    by_if (Gives (λ (e : AppDeploy). e.progress ≡ d.progress))
      (not (has_spec || has_override asked)) (accept d) _ (λ none_given. refl)
      (λ given. bind-Gives _ (update_limit _ has_spec asked.cpu d.cpu_limit p.cpu) _ (λ cpu h_cpu.
        bind-Gives _ (update_limit _ has_spec asked.mem d.memory_limit p.mem) _ (λ mem h_mem.
          bind-Gives _ (update_limit _ has_spec asked.vol d.volume_limit p.vol) _
            (λ vol h_vol. refl))))

-- The revision of the deployment that an instance has, zero where it has none.
abbrev pub revision_of : Option AppDeploy → ℕ
revision_of none = 0
revision_of (some d) = d.progress.revision

revision-or_empty : (d : Option AppDeploy) → (or_empty d).progress.revision ≡ revision_of d
revision-or_empty none = refl
revision-or_empty (some d) = refl

-- An update writes the next revision.
abbrev pub Succeeds : AppInstance → AppInstance → Type 0
Succeeds old new =
    (revision_of new.deploy ≡ suc (revision_of old.deploy) % 2 ^ 64)
    × (new.name ≡ old.name)
    × (new.ref_by_instances ≡ old.ref_by_instances)

-- The instance that an update writes has the next revision, which wraps around at 64 bits, whatever the
-- request changes; its name and its reverse references are those it had. The host, which rebuilds a
-- container when the revision changes, so sees every update, a restart included.
pub updated_instance-Succeeds :
    (out : Outside) (req : DeployRequest) (p : ParsedResources) (inst : AppInstance)
    → Gives (Succeeds inst) (updated_instance out req p inst)
unfolding updated_instance
updated_instance-Succeeds out req p inst =
    bind-Gives _ (update_ranges out req p (pick_spec req.spec inst.spec)) _ (λ found h1.
      bind-Gives _
        (update_limits (is_some req.spec) (asked_of req.deploy) found.1 (or_empty inst.deploy)) _
        (λ limited h2.
          let kept : limited.progress ≡ (or_empty inst.deploy).progress =
            value-Gives (λ (e : AppDeploy). e.progress ≡ (or_empty inst.deploy).progress)
              (progress-update_limits (is_some req.spec) (asked_of req.deploy) found.1
                (or_empty inst.deploy))
              h2 in
          let same : (resolve_config out.generated found.0
                (apply_request req limited)).progress.revision
              ≡ revision_of inst.deploy =
            ap (λ (d : stages.Deploy). d.revision)
              (progress-resolve_config out.generated found.0 (apply_request req limited)
                ∙ progress-apply_request req limited
                ∙ kept)
            ∙ revision-or_empty inst.deploy in
          (
            revision-mark (out.clock 0) (out.clock 1) (out.clock 2) (out.clock 3) _
                ∙ ap (λ n. suc n % 2 ^ 64) same,
            refl,
            refl,
          )))
