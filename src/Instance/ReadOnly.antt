-- ===== src/Instance/ReadOnly.antt =====
-- A deleted instance is read-only.
use innerstack.Prelude.{
  text_key, text_eq_iff, none, ◌==◌, ◌≡◌, refl, ap, ◌∙◌, Bool, true, false, not, ◌||◌, [], Option,
  some, Text, is_some,
}
use innerstack.Prelude.Map.{lookup}
use innerstack.ZoneLoop.{op_action_delete}
use innerstack.Instance.{
  AppDeploy, Entry, State, Outside, Op, Ran, returns, fails, Error, spec_required, is_deleted,
  guard, ◌then_run◌, load_instance,
}
use innerstack.Instance.Resources.{ParsedResources}
use innerstack.Instance.Checks.{DeployRequest}
use innerstack.Instance.Handlers.{
  is_read_only, change_instance, update_instance, check_call, check_request, app_instance_deploy,
  delete_entry, app_instance_delete, Call, deploy, delete, called, handle,
}
use innerstack.Instance.Ends.{Ends}
use innerstack.Instance.Checked.{Unchanged, CheckedRequest, check_request-Checked}
use innerstack.Instance.Found.{
  Passed, guard-Passed, Loaded, load_instance-Loaded, check_call-Passed, is_named,
}

-- A call that fails, and leaves the instances as they are.
abbrev pub Refused {ℓ} : {A : Type ℓ} → State → Ran A → Type 0
Refused s r = Ends (λ a t. ⊥) (Unchanged s) r

step-Refused :
    {A : Type 0} (R : A → State → Type 0) (s u : State) (r : Ran A) (f : A → Op (Unit {0}))
    → u.instances ≡ s.instances
    → Ends R (Unchanged u) r
    → ((a : A) (t : State) → R a t → Refused s (f a t))
    → Refused s (r then_run f)
unfolding Ends
step-Refused R s u (returns a t) f moved h next = next a t h
step-Refused R s u (fails e t) f moved h next = h ∙ moved

guard-Refused :
    (b : Bool) (e : Error) (s u : State) (f : Unit {0} → Op (Unit {0}))
    → b ≡ true
    → u.instances ≡ s.instances
    → Refused s (guard (not b) e u then_run f)
unfolding Ends
guard-Refused true e s u f h moved = moved
guard-Refused false e s u f h moved = cc

then_run-Refused :
    (s : State) (r : Ran (Unit {0})) (g : Unit {0} → Op (Unit {0}))
    → Refused s r
    → Refused s (r then_run g)
unfolding Ends
then_run-Refused s (returns a t) g h = absurd h
then_run-Refused s (fails e t) g h = h

nested-Refused :
    {A : Type 0} (s : State) (r : Ran A) (f : A → Op (Unit {0})) (g : Unit {0} → Op (Unit {0}))
    → Refused s (r then_run f)
    → Refused s ((r then_run f) then_run g)
nested-Refused s r f g h = then_run-Refused s (r then_run f) g h

-- The entry of the name, at the state that a handler has come to.
entry_at :
    (name : Text) (s t u : State) (found : Option Entry) (e : Entry)
    → t.instances ≡ s.instances
    → Loaded name t found u
    → lookup name s.instances ≡ some e
    → found ≡ some e
entry_at name s t u found e moved loaded entry = loaded.0 ∙ ap (lookup name) moved ∙ entry

update_instance-Refused :
    (out : Outside) (q : DeployRequest × ParsedResources) (s t : State) (found : Option Entry)
    (e : Entry) (f : Unit {0} → Op (Unit {0}))
    → found ≡ some e
    → is_read_only e.value.deploy ≡ true
    → t.instances ≡ s.instances
    → Refused s (change_instance out q.0 q.1 found t then_run f)
unfolding update_instance
update_instance-Refused out q s t found e f same dead moved = rw same (
    nested-Refused s (guard (not (is_read_only e.value.deploy)) (is_deleted q.0.name) t) _ f
      (guard-Refused (is_read_only e.value.deploy) (is_deleted q.0.name) s t _ dead moved))

app_instance_deploy-Refused :
    (out : Outside) (req : DeployRequest) (s : State) (e : Entry)
    → lookup req.name s.instances ≡ some e
    → is_read_only e.value.deploy ≡ true
    → Refused s (app_instance_deploy out req s)
unfolding app_instance_deploy
app_instance_deploy-Refused out req s e entry dead =
    step-Refused (Passed (not (req.name == [])) s) s s (check_call out req.name s) _ refl
      (check_call-Passed out req.name s)
      (λ u1 t1 h1.
        step-Refused (Loaded req.name t1) s t1 (load_instance out req.name t1) _ h1.1
          (load_instance-Loaded out req.name t1 (is_named req.name h1.0))
          (λ found t2 h2.
            step-Refused (Passed (is_some found || is_some req.spec) t2) s t2
              (guard (is_some found || is_some req.spec) spec_required t2) _ (h2.1 ∙ h1.1)
              (guard-Passed _ _ t2)
              (λ u3 t3 h3.
                step-Refused (CheckedRequest out req t3) s t3 (check_request out req t3) _
                  (h3.1 ∙ h2.1 ∙ h1.1) (check_request-Checked out req t3)
                  (λ q t4 h4.
                    update_instance-Refused out q s t4 found e _
                      (entry_at req.name s t1 t2 found e h1.1 h2 entry) dead
                      (h4.3 ∙ h3.1 ∙ h2.1 ∙ h1.1)))))

app_instance_delete-Refused :
    (out : Outside) (name : Text) (s : State) (e : Entry)
    → lookup name s.instances ≡ some e
    → is_read_only e.value.deploy ≡ true
    → Refused s (app_instance_delete out name s)
unfolding app_instance_delete delete_entry
app_instance_delete-Refused out name s e entry dead =
    step-Refused (Passed (not (name == [])) s) s s (check_call out name s) _ refl
      (check_call-Passed out name s)
      (λ u1 t1 h1.
        step-Refused (Loaded name t1) s t1 (load_instance out name t1) _ h1.1
          (load_instance-Loaded out name t1 (is_named name h1.0))
          (λ found t2 h2. rw (entry_at name s t1 t2 found e h1.1 h2 entry) (
            guard-Refused (is_read_only e.value.deploy) (is_deleted name) s t2 _ dead
              (h2.1 ∙ h1.1))))

abbrev pub action_of : Option AppDeploy → Text
action_of none = []
action_of (some d) = d.action

read_only_lem :
    (deploy : Option AppDeploy) (d : AppDeploy)
    → deploy ≡ some d
    → d.action ≡ op_action_delete
    → is_read_only deploy ≡ true
unfolding is_read_only
read_only_lem none d h marked = cc
read_only_lem (some c) d h marked =
    (text_eq_iff c.action op_action_delete).1 (ap action_of h ∙ marked)

-- A deleted instance is read-only: every deployment and every deletion of a name whose instance has the
-- action `delete` fails, and leaves all instances in the data store as they are.
pub handle-Refused :
    (out : Outside) (call : Call) (s : State) (e : Entry) (d : AppDeploy)
    → lookup (called call) s.instances ≡ some e
    → e.value.deploy ≡ some d
    → d.action ≡ op_action_delete
    → Refused s (handle out call s)
unfolding handle
handle-Refused out (deploy req) s e d entry has_deploy marked =
    app_instance_deploy-Refused out req s e entry (read_only_lem e.value.deploy d has_deploy marked)
handle-Refused out (delete name) s e d entry has_deploy marked =
    app_instance_delete-Refused out name s e entry
      (read_only_lem e.value.deploy d has_deploy marked)
