-- ===== src/Instance/Deleted.antt =====
-- What a deletion leaves.
use innerstack.Prelude.{
  text_key, number_key, ℕ, ◌≡◌, refl, sym, ap, ◌∙◌, true, false, not, [], ◌∷◌, Option, none, some,
  Text, ◌==◌, is_some, Bool-cases, Option-cases, inl, inr, text_eq_iff, same_refl, true≢false,
  false≢true, by_if, by_option, if◌then◌else◌,
}
use innerstack.Prelude.Map.{lookup, insert, lookup-insert_self}
use innerstack.ZoneLoop.{op_action_delete}
use innerstack.ZoneLoop.Pass.{is_newer}
use innerstack.Instance.Names.{dns_label_valid}
use innerstack.Instance.{
  AppDeploy, AppInstance, Entry, State, Outside, Op, Ran, returns, fails, Error, store_failed,
  is_deleted, guard, ◌then_run◌, ticked, stored, is_at, load_instance, write_instance,
}
use innerstack.Instance.Checks.{soft_delete_ttl}
use innerstack.Instance.Handlers.{
  is_read_only, check_call, store_cached, cached_version, deleted, delete_entry,
  app_instance_delete,
}
use innerstack.Instance.Ends.{Ends}
use innerstack.Instance.Listed.{Reliable}
use innerstack.Instance.ReadOnly.{action_of}

after_return {ℓ κ ι} :
    {A : Type ℓ} {B : Type κ} (P : B → State → Type ι) (Q : Error → State → Type ι) (r : Ran A)
    (f : A → Op B) (a : A) (u : State)
    → r ≡ returns a u
    → Ends P Q (f a u)
    → Ends P Q (r then_run f)
after_return P Q r f a u h k = rw h k

label_named : (name : Text) → dns_label_valid name ≡ true → name == [] ≡ false
unfolding dns_label_valid
label_named name h = elim (Bool-cases (name == [])) [
  | inl empty ↦
      let unnamed : dns_label_valid name ≡ false = rw empty refl in
      absurd (false≢true (sym unnamed ∙ h))
  | inr named ↦ named
]

check_call-returns :
    (out : Outside) (name : Text) (s : State)
    → out.allowed ≡ true
    → out.is_leader ≡ true
    → dns_label_valid name ≡ true
    → check_call out name s ≡ returns tt s
unfolding check_call
check_call-returns out name s allowed leader valid =
    rw (allowed, leader, label_named name valid, valid) refl

load_instance-returns :
    (out : Outside) (name : Text) (s : State) (e : Entry)
    → Reliable out
    → name == [] ≡ false
    → lookup name s.instances ≡ some e
    → load_instance out name s ≡ returns (some e) (ticked s)
unfolding load_instance
load_instance-returns out [] s e reliable named found =
    absurd (true≢false (sym (same_refl {A = Text} []) ∙ named))
load_instance-returns out (c ∷ rest) s e reliable named found = rw (reliable.0 s.tick, found) refl

some_injective {ℓ} : {A : Type ℓ} {a b : A} → some a ≡ some b → a ≡ b
some_injective h = cc

write_current :
    (out : Outside) (name : Text) (value : AppInstance) (prev v : ℕ) (ttl : Option ℕ) (s : State)
    → out.answer s.tick ≡ some v
    → is_at prev (lookup name s.instances) ≡ true
    → write_instance out name value prev ttl s ≡ stored name value v ttl s
unfolding write_instance
write_current out name value prev v ttl s answered current =
    by_option {A = ℕ} {B = Ran ℕ} (λ r. r ≡ stored name value v ttl s) (out.answer s.tick)
      (fails store_failed (ticked s))
      (λ w.
        if is_at prev (lookup name s.instances)
        then stored name value w ttl s
        else fails store_failed (ticked s))
      (λ q. absurd (false≢true (ap is_some (sym q ∙ answered))))
      (λ w q. let same : w ≡ v = some_injective (sym q ∙ answered) in rw (current, same) refl)

write_instance-returns :
    (out : Outside) (name : Text) (value : AppInstance) (e : Entry) (ttl : Option ℕ) (s : State)
    → Reliable out
    → lookup name s.instances ≡ some e
    → (v : ℕ) × (write_instance out name value e.version ttl s ≡ stored name value v ttl s)
write_instance-returns out name value e ttl s reliable found =
    elim (Option-cases (out.answer s.tick)) [
      | inl unanswered ↦ absurd (false≢true (sym (ap is_some unanswered) ∙ reliable.1 s.tick))
      | inr (v, answered) ↦
          let current : is_at e.version (lookup name s.instances) ≡ true =
            rw found (same_refl e.version) in
          (v, write_current out name value e.version v ttl s answered current)
    ]

not_read_only : (d : Option AppDeploy) → ¬ (action_of d ≡ op_action_delete) → is_read_only d ≡ false
unfolding is_read_only
not_read_only none other = refl
not_read_only (some c) other = elim (Bool-cases (c.action == op_action_delete)) [
  | inl same ↦ absurd (other ((text_eq_iff c.action op_action_delete).0 same))
  | inr differs ↦ differs
]

-- The instance of a name has the action `delete` and a time to live, and its name, spec and reverse
-- references are those that `e` had.
abbrev pub IsMarked : Text → Entry → State → Type 0
IsMarked name e t =
    (v : ℕ) × (inst : AppInstance) × (lookup name t.instances
      ≡ some (record { value = inst; version = v; ttl = some soft_delete_ttl }))
    × (action_of inst.deploy ≡ op_action_delete)
    × (inst.name ≡ e.value.name)
    × (inst.spec ≡ e.value.spec)
    × (inst.ref_by_instances ≡ e.value.ref_by_instances)

store_cached-IsMarked :
    (name : Text) (e : Entry) (inst : AppInstance) (v : ℕ) (s : State)
    (f : Unit {0} → Op (Unit {0}))
    → ((t : State)
        → t.instances ≡ s.instances
        → Ends (λ a u. IsMarked name e u) (λ q u. ⊥) (f tt t))
    → Ends (λ a u. IsMarked name e u) (λ q u. ⊥) (store_cached inst v s then_run f)
unfolding store_cached
store_cached-IsMarked name e inst v s f next =
    by_if {A = Ran (Unit {0})} (λ r. Ends (λ a u. IsMarked name e u) (λ q u. ⊥) (r then_run f))
      (is_newer v (cached_version (lookup inst.name s.cached)))
      (returns tt (record s { cached = insert inst.name (inst, v) s.cached })) (returns tt s)
      (λ h. next (record s { cached = insert inst.name (inst, v) s.cached }) refl)
      (λ h. next s refl)

marked :
    (name : Text) (e : Entry) (t : State)
    → IsMarked name e t
    → Ends {A = Unit {0}} (λ a u. IsMarked name e u) (λ q u. ⊥) (returns tt t)
unfolding Ends
marked name e t h = h

-- A deletion by a caller with the rights, at the leader, of a valid name whose instance is not marked as
-- deleted, returns if no read fails and every write is answered. The data store then holds the
-- instance with the action `delete` and a time to live, and with its name, spec and reverse references
-- as before.
pub app_instance_delete-IsMarked :
    (out : Outside) (name : Text) (s : State) (e : Entry)
    → out.allowed ≡ true
    → out.is_leader ≡ true
    → dns_label_valid name ≡ true
    → Reliable out
    → lookup name s.instances ≡ some e
    → ¬ (action_of e.value.deploy ≡ op_action_delete)
    → Ends (λ a t. IsMarked name e t) (λ q t. ⊥) (app_instance_delete out name s)
unfolding app_instance_delete delete_entry
app_instance_delete-IsMarked out name s e allowed leader valid reliable found live =
    after_return _ _ (check_call out name s) _ tt s
      (check_call-returns out name s allowed leader valid)
      (after_return _ _ (load_instance out name s) _ (some e) (ticked s)
        (load_instance-returns out name s e reliable (label_named name valid) found)
        (let open_now : guard (not (is_read_only e.value.deploy)) (is_deleted name) (ticked s)
              ≡ returns tt (ticked s) =
            rw (not_read_only e.value.deploy live) refl in
          after_return _ _ (guard (not (is_read_only e.value.deploy)) (is_deleted name) (ticked s))
            _ tt (ticked s) open_now
            (let (v, wrote) =
                write_instance-returns out name (deleted e.value) e (some soft_delete_ttl)
                  (ticked s) reliable found in
              after_return _ _
                (write_instance out name (deleted e.value) e.version (some soft_delete_ttl)
                  (ticked s))
                _ v _ wrote
                (store_cached-IsMarked name e (deleted e.value) v _ _ (λ t same.
                  marked name e (record t { force_refresh = true })
                    (
                      v,
                      deleted e.value,
                      ap (lookup name) same ∙ lookup-insert_self name _ s.instances,
                      refl,
                      refl,
                      refl,
                      refl,
                    ))))))
