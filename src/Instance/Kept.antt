-- ===== src/Instance/Kept.antt =====
-- The reverse references after an update of an instance.
use innerstack.Prelude.{
  text_key, ℕ, ◌≡◌, refl, sym, ap, subst, ◌∙◌, inl, inr, Bool, true, not, List, Option, none, some,
  Text, ◌==◌, text_eq_iff, Bool-cases, contains, same_refl, number_key,
}
use innerstack.Prelude.Map.{lookup, insert, lookup-insert}
use innerstack.Instance.{
  AppInstance, Entry, State, Outside, Op, Ran, returns, fails, Error, is_deleted, guard, ◌then_run◌,
  write_instance,
}
use innerstack.Instance.Resources as resources
use innerstack.Instance.Resources.{ParsedResources, Judged}
use innerstack.Instance.Refs.{depend_names, update_reverse_refs}
use innerstack.Instance.Checks.{DeployRequest, lift}
use innerstack.Instance.Changes.{updated_instance}
use innerstack.Instance.Handlers.{is_read_only, update_instance, try_reverse_refs}
use innerstack.Instance.Ends.{Ends}
use innerstack.Instance.Ranges.{value-Gives}
use innerstack.Instance.Revision.{Succeeds, updated_instance-Succeeds}
use innerstack.Instance.Checked.{Unchanged}
use innerstack.Instance.Found.{Passed, guard-Passed}
use innerstack.Instance.Listed.{lists, Reliable, Wrote, write_instance-Wrote}
use innerstack.Instance.Linked.{linked, update_reverse_refs-Linked}

-- The instances that list `name` still do.
abbrev pub StillListed : Text → State → State → Type 0
StillListed name s t =
    (k : Text)
    → lists name (lookup k s.instances) ≡ some true
    → lists name (lookup k t.instances) ≡ some true

linked_same :
    (next : List Text) (k : Text) (o : Option Bool)
    → o ≡ some true
    → linked next next k o ≡ some true
linked_same next k o h = elim (Bool-cases (contains next k)) [
  | inl within ↦ rw (h, within) refl
  | inr without ↦ rw (h, without) refl
]

tried :
    (out : Outside) (name : Text) (next : List Text) (s t : State) (r : Ran (Unit {0}))
    → Reliable out
    → StillListed name s t
    → Ends
        (λ a u.
          (k : Text)
          → lists name (lookup k u.instances)
            ≡ linked next next k (lists name (lookup k t.instances)))
        (λ e u. ¬ Reliable out)
        r
    → Ends {A = Unit {0}}
        (λ a u. StillListed name s u)
        (λ e u. ⊥)
        (elim r [ returns a u ↦ returns tt u | fails e u ↦ returns tt u ])
unfolding Ends
tried out name next s t (returns a u) reliable before linked_now =
    λ k h. linked_now k ∙ linked_same next k (lists name (lookup k t.instances)) (before k h)
tried out name next s t (fails e u) reliable before linked_now = absurd (linked_now reliable)

try_reverse_refs-StillListed :
    (out : Outside) (name : Text) (next : List Text) (s t : State)
    → Reliable out
    → StillListed name s t
    → Ends (λ a u. StillListed name s u) (λ e u. ⊥) (try_reverse_refs out name next next t)
unfolding try_reverse_refs
try_reverse_refs-StillListed out name next s t reliable before =
    tried out name next s t (update_reverse_refs out name next next t) reliable before
      (update_reverse_refs-Linked out name next next t)

-- The write of the instance itself keeps what it lists.
insert-StillListed :
    (name : Text) (old new : Entry) (s u t : State)
    → lookup name s.instances ≡ some old
    → new.value.ref_by_instances ≡ old.value.ref_by_instances
    → u.instances ≡ s.instances
    → t.instances ≡ insert name new u.instances
    → StillListed name s t
insert-StillListed name old new s u t here same moved wrote k h = elim (Bool-cases (name == k)) [
  | inl at ↦
      let e : name ≡ k = (text_eq_iff name k).0 at in
      let found : lookup k s.instances ≡ some old = ap (λ n. lookup n s.instances) (sym e) ∙ here in
      let listed : lists name (some old) ≡ some true = ap (lists name) (sym found) ∙ h in
      rw (wrote, lookup-insert, at, same) listed
  | inr other ↦ rw (wrote, lookup-insert, other, moved) h
]

ran-StillListed :
    (out : Outside) (old : Entry) (inst : AppInstance) (s u : State) (r : Ran ℕ)
    → lookup old.value.name s.instances ≡ some old
    → Succeeds old.value inst
    → u.instances ≡ s.instances
    → Reliable out
    → Wrote out inst.name inst none u r
    → Ends (λ v t. StillListed old.value.name s t) (λ e t. ⊥) r
unfolding Ends
ran-StillListed out old inst s u (returns v t) here next moved reliable wrote =
    insert-StillListed old.value.name old (record { value = inst; version = v; ttl = none }) s u t
      here next.2 moved
      (subst
        (λ n. t.instances ≡ insert n (record { value = inst; version = v; ttl = none }) u.instances)
        next.1 wrote)
ran-StillListed out old inst s u (fails e t) here next moved reliable wrote = wrote reliable

write-StillListed :
    (out : Outside) (old : Entry) (inst : AppInstance) (s u : State)
    → lookup old.value.name s.instances ≡ some old
    → Succeeds old.value inst
    → u.instances ≡ s.instances
    → Reliable out
    → Ends
        (λ v t. StillListed old.value.name s t)
        (λ e t. ⊥)
        (write_instance out inst.name inst old.version none u)
write-StillListed out old inst s u here next moved reliable =
    let found : lookup inst.name u.instances ≡ some old =
      ap (lookup inst.name) moved ∙ ap (λ n. lookup n s.instances) next.1 ∙ here in
    ran-StillListed out old inst s u (write_instance out inst.name inst old.version none u) here
      next moved reliable
      (write_instance-Wrote out inst.name inst old.version none u
        (rw found (same_refl old.version)))

after_ok :
    {A : Type 0} (P : Unit {0} → State → Type 0) (Q : Error → State → Type 0) (s u : State)
    (r : Ran A) (f : A → Op (Unit {0})) (R : A → State → Type 0)
    → Ends R Q r
    → ((e : Error) (t : State) → Q e t → Unchanged s e t)
    → ((a : A) (t : State) → R a t → Ends P (Unchanged s) (f a t))
    → Ends P (Unchanged s) (r then_run f)
unfolding Ends
after_ok P Q s u (returns a t) f R h q next = next a t h
after_ok P Q s u (fails e t) f R h q next = q e t h

after_lift :
    {A : Type 0} (P : Unit {0} → State → Type 0) (s u : State) (r : Judged A)
    (f : A → Op (Unit {0}))
    → u.instances ≡ s.instances
    → ((a : A) → r ≡ resources.accept a → Ends P (Unchanged s) (f a u))
    → Ends P (Unchanged s) (lift r u then_run f)
unfolding Ends
after_lift P s u (resources.accept a) f moved next = next a refl
after_lift P s u (resources.reject e) f moved next = moved

no_failure :
    (P : Unit {0} → State → Type 0) (s : State) (r : Ran (Unit {0}))
    → Ends P (λ e t. ⊥) r
    → Ends P (Unchanged s) r
unfolding Ends
no_failure P s (returns a t) h = h
no_failure P s (fails e t) h = absurd h

-- When no read fails and every write is answered, an update of an instance that is kept under its name
-- returns or is refused, and every instance that listed its name still does, whichever
-- dependencies the request sets: a dependency that the update drops is not unlinked.
pub update_instance-StillListed :
    (out : Outside) (req : DeployRequest) (p : ParsedResources) (old : Entry) (s : State)
    → Reliable out
    → lookup old.value.name s.instances ≡ some old
    → Ends (λ a t. StillListed old.value.name s t) (Unchanged s) (update_instance out req p old s)
unfolding update_instance
update_instance-StillListed out req p old s reliable here =
    after_ok (λ a t. StillListed old.value.name s t) (Unchanged s) s s
      (guard (not (is_read_only old.value.deploy)) (is_deleted req.name) s) _
      (Passed (not (is_read_only old.value.deploy)) s) (guard-Passed _ _ s) (λ e t h. h)
      (λ u1 t1 h1.
        after_lift (λ a t. StillListed old.value.name s t) s t1
          (updated_instance out req p old.value) _ h1.1
          (λ inst h2.
            let next =
              value-Gives (Succeeds old.value) (updated_instance-Succeeds out req p old.value) h2 in
            after_ok (λ a t. StillListed old.value.name s t) (λ e t. ⊥) s t1
              (write_instance out inst.name inst old.version none t1) _
              (λ v t. StillListed old.value.name s t)
              (write-StillListed out old inst s t1 here next h1.1 reliable) (λ e t bad. absurd bad)
              (λ v t2 kept.
                subst
                  (λ n.
                    Ends (λ a u. StillListed n s u) (Unchanged s)
                      (try_reverse_refs out inst.name (depend_names inst.deploy)
                        (depend_names inst.deploy) t2))
                  next.1
                  (no_failure (λ a u. StillListed inst.name s u) s _
                    (try_reverse_refs-StillListed out inst.name (depend_names inst.deploy) s t2
                      reliable (subst (λ n. StillListed n s t2) (sym next.1) kept))))))
