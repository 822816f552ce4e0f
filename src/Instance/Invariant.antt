-- ===== src/Instance/Invariant.antt =====
-- Deployments and deletions keep every instance's limits in the ranges of its spec.
use innerstack.Prelude.{
  text_key, ℕ, ◌≡◌, refl, sym, ap, ◌∙◌, true, not, ◌||◌, [], Option, none, some, Text, ◌==◌,
  is_some, by_if,
}
use innerstack.Prelude.Map.{lookup, insert}
use innerstack.ZoneLoop.{op_action_delete}
use innerstack.ZoneLoop.Pass.{is_newer}
use innerstack.Instance.{
  AppInstance, Entry, State, Outside, Op, Ran, returns, fails, Error, spec_required, is_deleted,
  not_found, fail, guard, ◌then_run◌, load_instance, write_instance, create_instance,
}
use innerstack.Instance.Resources as resources
use innerstack.Instance.Resources.{ParsedResources, Judged, asked_of}
use innerstack.Instance.Refs.{depend_names}
use innerstack.Instance.Checks.{DeployRequest, lift, soft_delete_ttl}
use innerstack.Instance.Changes.{updated_instance, created_instance, or_empty}
use innerstack.Instance.Handlers.{
  is_read_only, change_instance, update_instance, add_instance, validate_name_unique, check_call,
  check_request, app_instance_deploy, store_cached, cached_version, deleted, delete_entry,
  app_instance_delete, Call, deploy, delete, handle,
}
use innerstack.Instance.Ends.{
  Ends, QuietAt, then_run-Ends, after_quiet, guard-Quiet, validate_name_unique-Quiet,
}
use innerstack.Instance.Ranges.{Gives}
use innerstack.Instance.Sound.{
  HasRanges, Allocated, updated_instance-Allocated, created_instance-Allocated,
}
use innerstack.Instance.Checked.{Unchanged, CheckedRequest, check_request-Checked}
use innerstack.Instance.Keeps.{
  Every, EndsEvery, Every-moved, done, write_instance-Every, create_instance-Every,
  try_reverse_refs-Every,
}
use innerstack.Instance.Found.{
  Passed, guard-Passed, Loaded, load_instance-Loaded, check_call-Passed, is_named,
}

-- A pure step, of whose value a predicate holds.
lift-Every :
    {A : Type 0} (P : AppInstance → Type 0) (R : A → Type 0) (r : Judged A) (f : A → Op (Unit {0}))
    (s : State)
    → Gives R r
    → Every P s
    → ((a : A) → R a → EndsEvery P (f a s))
    → EndsEvery P (lift r s then_run f)
unfolding Ends
lift-Every P R (resources.accept a) f s h every next = next a h
lift-Every P R (resources.reject e) f s h every next = every

-- A step that keeps what holds of every instance.
after_kept :
    {A : Type 0} (P : AppInstance → Type 0) (r : Ran A) (f : A → Op (Unit {0}))
    → EndsEvery P r
    → ((a : A) (t : State) → Every P t → EndsEvery P (f a t))
    → EndsEvery P (r then_run f)
after_kept P r f h next =
    then_run-Ends (λ a t. Every P t) (λ a t. Every P t) (λ e t. Every P t) r f h next

-- A step that leaves the instances as they are.
after_same :
    {A : Type 0} (P : AppInstance → Type 0) (s : State) (r : Ran A) (f : A → Op (Unit {0}))
    → Every P s
    → QuietAt s r
    → ((a : A) (t : State) → Every P t → EndsEvery P (f a t))
    → EndsEvery P (r then_run f)
after_same P s r f every quiet next =
    after_quiet (λ a t. Every P t) (λ e t. Every P t) s r f quiet
      (λ e t h. Every-moved P s t h every) (λ a t h. next a t (Every-moved P s t h every))

update_instance-Every :
    (out : Outside) (req : DeployRequest) (p : ParsedResources) (e : Entry) (s : State)
    → Allocated out e.value
    → (is_some req.spec ≡ true → HasRanges out req.spec p)
    → Every (Allocated out) s
    → EndsEvery (Allocated out) (update_instance out req p e s)
unfolding update_instance
update_instance-Every out req p e s sound ranges every =
    after_same (Allocated out) s (guard (not (is_read_only e.value.deploy)) (is_deleted req.name) s)
      _ every (guard-Quiet _ _ s)
      (λ u t1 every1.
        lift-Every (Allocated out) (Allocated out) (updated_instance out req p e.value) _ t1
          (updated_instance-Allocated out req p e.value sound ranges) every1
          (λ inst h.
            after_kept (Allocated out) (write_instance out inst.name inst e.version none t1) _
              (write_instance-Every (Allocated out) out inst.name inst e.version none t1 h every1)
              (λ v t2 every2.
                try_reverse_refs-Every (Allocated out) out inst.name (depend_names inst.deploy)
                  (depend_names inst.deploy) t2 (λ i refs q. q) every2)))

add_instance-Every :
    (out : Outside) (req : DeployRequest) (p : ParsedResources) (s : State)
    → HasRanges out req.spec p
    → Every (Allocated out) s
    → EndsEvery (Allocated out) (add_instance out req p s)
unfolding add_instance
add_instance-Every out req p s ranges every =
    after_same (Allocated out) s (validate_name_unique out req.name s) _ every
      (validate_name_unique-Quiet out req.name s)
      (λ u t1 every1.
        lift-Every (Allocated out) (Allocated out) (created_instance out req p) _ t1
          (created_instance-Allocated out req p ranges) every1
          (λ inst h.
            after_kept (Allocated out) (create_instance out inst.name inst t1) _
              (create_instance-Every (Allocated out) out inst.name inst t1 h every1)
              (λ v t2 every2.
                try_reverse_refs-Every (Allocated out) out inst.name [] (depend_names inst.deploy)
                  t2 (λ i refs q. q) every2)))

-- What a deployment does once its request is checked.
finish_deploy :
    (out : Outside) (req : DeployRequest) (s t u : State) (found : Option Entry)
    (q : DeployRequest × ParsedResources)
    → Loaded req.name s found t
    → (is_some found || is_some req.spec) ≡ true
    → CheckedRequest out req t q u
    → Every (Allocated out) s
    → EndsEvery (Allocated out) (change_instance out q.0 q.1 found u)
finish_deploy out req s t u none q loaded allowed checked every =
    add_instance-Every out q.0 q.1 u (checked.0 (sym checked.1 ∙ allowed))
      (Every-moved (Allocated out) s u (checked.3 ∙ loaded.1) every)
finish_deploy out req s t u (some e) q loaded allowed checked every =
    update_instance-Every out q.0 q.1 e u (every req.name e (sym loaded.0)) checked.0
      (Every-moved (Allocated out) s u (checked.3 ∙ loaded.1) every)

-- At the end of a handler's first steps every instance is as it was.
Every-Unchanged :
    (P : AppInstance → Type 0) (s : State) (e : Error) (t : State)
    → Every P s
    → Unchanged s e t
    → Every P t
Every-Unchanged P s e t every same = Every-moved P s t same every

-- A step with a postcondition, before which the instances are those of `s`.
after_step :
    {A : Type 0} (P : AppInstance → Type 0) (R : A → State → Type 0) (s : State) (r : Ran A)
    (f : A → Op (Unit {0}))
    → Every P s
    → Ends R (Unchanged s) r
    → ((a : A) (t : State) → R a t → EndsEvery P (f a t))
    → EndsEvery P (r then_run f)
unfolding Ends
after_step P R s (returns a t) f every h next = next a t h
after_step P R s (fails e t) f every h next = Every-moved P s t h every

app_instance_deploy-Every :
    (out : Outside) (req : DeployRequest) (s : State)
    → Every (Allocated out) s
    → EndsEvery (Allocated out) (app_instance_deploy out req s)
unfolding app_instance_deploy
app_instance_deploy-Every out req s every =
    after_step (Allocated out) (Passed (not (req.name == [])) s) s (check_call out req.name s) _
      every (check_call-Passed out req.name s)
      (λ u1 t1 h1.
        after_step (Allocated out) (Loaded req.name t1) t1 (load_instance out req.name t1) _
          (Every-moved (Allocated out) s t1 h1.1 every)
          (load_instance-Loaded out req.name t1 (is_named req.name h1.0))
          (λ found t2 h2.
            after_step (Allocated out) (Passed (is_some found || is_some req.spec) t2) t2
              (guard (is_some found || is_some req.spec) spec_required t2) _
              (Every-moved (Allocated out) s t2 (h2.1 ∙ h1.1) every) (guard-Passed _ _ t2)
              (λ u3 t3 h3.
                after_step (Allocated out) (CheckedRequest out req t3) t3 (check_request out req t3)
                  _ (Every-moved (Allocated out) s t3 (h3.1 ∙ h2.1 ∙ h1.1) every)
                  (check_request-Checked out req t3)
                  (λ q t4 h4.
                    after_kept (Allocated out) (change_instance out q.0 q.1 found t4) _
                      (finish_deploy out req t1 t3 t4 found q (h2.0, h3.1 ∙ h2.1) h3.0 h4
                        (Every-moved (Allocated out) s t1 h1.1 every))
                      (λ u5 t5 every5.
                        done (Allocated out) (record t5 { force_refresh = true }) every5)))))

deleted-Allocated :
    (out : Outside) (inst : AppInstance) → Allocated out inst → Allocated out (deleted inst)
deleted-Allocated out inst (p, d, ranges, h_d, limited) =
    (p, record (or_empty inst.deploy) { action = op_action_delete }, ranges, refl, rw h_d limited)

store_cached-Quiet : (inst : AppInstance) (v : ℕ) (s : State) → QuietAt s (store_cached inst v s)
unfolding store_cached Ends
store_cached-Quiet inst v s =
    by_if {A = Ran (Unit {0})} (λ r. QuietAt s r)
      (is_newer v (cached_version (lookup inst.name s.cached)))
      (returns tt (record s { cached = insert inst.name (inst, v) s.cached })) (returns tt s)
      (λ h. refl) (λ h. refl)

missing :
    (P : AppInstance → Type 0) (s : State)
    → Every P s
    → EndsEvery P (fail {A = Unit {0}} not_found s)
unfolding Ends
missing P s every = every

delete_entry-Every :
    (out : Outside) (name : Text) (found : Option Entry) (s : State)
    → ((e : Entry) → found ≡ some e → Allocated out e.value)
    → Every (Allocated out) s
    → EndsEvery (Allocated out) (delete_entry out name found s)
unfolding delete_entry
delete_entry-Every out name none s sound every = missing (Allocated out) s every
delete_entry-Every out name (some e) s sound every =
    after_same (Allocated out) s (guard (not (is_read_only e.value.deploy)) (is_deleted name) s) _
      every (guard-Quiet _ _ s)
      (λ u1 t1 every1.
        after_kept (Allocated out)
          (write_instance out name (deleted e.value) e.version (some soft_delete_ttl) t1) _
          (write_instance-Every (Allocated out) out name (deleted e.value) e.version
            (some soft_delete_ttl) t1 (deleted-Allocated out e.value (sound e refl)) every1)
          (λ v t2 every2.
            after_same (Allocated out) t2 (store_cached (deleted e.value) v t2) _ every2
              (store_cached-Quiet (deleted e.value) v t2)
              (λ u3 t3 every3. done (Allocated out) (record t3 { force_refresh = true }) every3)))

app_instance_delete-Every :
    (out : Outside) (name : Text) (s : State)
    → Every (Allocated out) s
    → EndsEvery (Allocated out) (app_instance_delete out name s)
unfolding app_instance_delete
app_instance_delete-Every out name s every =
    after_step (Allocated out) (Passed (not (name == [])) s) s (check_call out name s) _ every
      (check_call-Passed out name s)
      (λ u1 t1 h1.
        after_step (Allocated out) (Loaded name t1) t1 (load_instance out name t1) _
          (Every-moved (Allocated out) s t1 h1.1 every)
          (load_instance-Loaded out name t1 (is_named name h1.0))
          (λ found t2 h2.
            delete_entry-Every out name found t2
              (λ e h. every name e (ap (lookup name) (sym h1.1) ∙ sym h2.0 ∙ h))
              (Every-moved (Allocated out) s t2 (h2.1 ∙ h1.1) every)))

-- A deployment or a deletion, however it ends, keeps this invariant of the data store: each instance has
-- a spec with normal resources that parse into ranges, and its limits of CPU, memory and volume lie in
-- these ranges. Nothing is asked of the request, the reads, the writes or the readers of resources.
pub handle-Allocated :
    (out : Outside) (call : Call) (s : State)
    → Every (Allocated out) s
    → EndsEvery (Allocated out) (handle out call s)
unfolding handle
handle-Allocated out (deploy req) s every = app_instance_deploy-Every out req s every
handle-Allocated out (delete name) s every = app_instance_delete-Every out name s every
