-- ===== src/Instance/Keeps.antt =====
-- The calls that write instances keep what holds of each of them.
use innerstack.Prelude.{
  text_key, ℕ, ◌≡◌, refl, sym, ap, subst, ◌∙◌, inl, inr, Bool, true, false, List, [], ◌∷◌, Option,
  none, some, Text, if◌then◌else◌, by_if, by_option, is_some, ◌==◌, Option-cases,
}
use innerstack.Prelude.Map.{lookup, lookup-insert}
use innerstack.Instance.{
  AppInstance, Entry, State, Outside, Op, Ran, returns, fails, Error, store_failed, pure, ◌>>=◌,
  ◌then_run◌, ticked, stored, is_at, read, write_instance, create_instance,
}
use innerstack.Instance.Refs.{
  new_refs, put_refs, update_ref, update_all, dropped_names, update_reverse_refs,
}
use innerstack.Instance.Handlers.{try_reverse_refs}
use innerstack.Instance.Ends.{Ends, then_run-Ends}

-- `P` holds of each instance.
abbrev pub Every : (AppInstance → Type 0) → State → Type 0
Every P s = (k : Text) (e : Entry) → lookup k s.instances ≡ some e → P e.value

-- It holds of each at the end of a call.
abbrev pub EndsEvery : {A : Type 0} → (AppInstance → Type 0) → Ran A → Type 0
EndsEvery P r = Ends (λ a t. Every P t) (λ e t. Every P t) r

pub Every-moved :
    (P : AppInstance → Type 0) (s u : State) → u.instances ≡ s.instances → Every P s → Every P u
Every-moved P s u same h k e found = h k e (ap (lookup k) (sym same) ∙ found)

some_injective {ℓ} : {A : Type ℓ} {a b : A} → some a ≡ some b → a ≡ b
some_injective h = cc

insert-Every :
    (P : AppInstance → Type 0) (s : State) (name : Text) (new e : Entry) (k : Text)
    → P new.value
    → Every P s
    → (if name == k then some new else lookup k s.instances) ≡ some e
    → P e.value
insert-Every P s name new e k h every found =
    by_if (λ o. o ≡ some e → P e.value) (name == k) (some new) (lookup k s.instances)
      (λ same eq. subst (λ (x : Entry). P x.value) (some_injective eq) h) (λ other eq. every k e eq)
      found

pub stored-Every :
    (P : AppInstance → Type 0) (name : Text) (value : AppInstance) (v : ℕ) (ttl : Option ℕ)
    (s : State)
    → P value
    → Every P s
    → EndsEvery P (stored name value v ttl s)
unfolding Ends
stored-Every P name value v ttl s h every k e found =
    insert-Every P s name (record { value = value; version = v; ttl = ttl }) e k h every
      (sym (lookup-insert name k _ s.instances) ∙ found)

failed-Every :
    (P : AppInstance → Type 0) (e : Error) (s : State)
    → Every P s
    → Ends {A = ℕ} (λ a t. Every P t) (λ q t. Every P t) (fails e (ticked s))
unfolding Ends
failed-Every P e s every = every

pub write_instance-Every :
    (P : AppInstance → Type 0) (out : Outside) (name : Text) (value : AppInstance) (prev : ℕ)
    (ttl : Option ℕ) (s : State)
    → P value
    → Every P s
    → EndsEvery P (write_instance out name value prev ttl s)
unfolding write_instance
write_instance-Every P out name value prev ttl s h every =
    by_option {A = ℕ} {B = Ran ℕ} (λ r. EndsEvery P r) (out.answer s.tick)
      (fails store_failed (ticked s))
      (λ v.
        if is_at prev (lookup name s.instances)
        then stored name value v ttl s
        else fails store_failed (ticked s))
      (λ q. failed-Every P store_failed s every)
      (λ v q.
        by_if {A = Ran ℕ} (λ r. EndsEvery P r) (is_at prev (lookup name s.instances))
          (stored name value v ttl s) (fails store_failed (ticked s))
          (λ same. stored-Every P name value v ttl s h every)
          (λ other. failed-Every P store_failed s every))

pub create_instance-Every :
    (P : AppInstance → Type 0) (out : Outside) (name : Text) (value : AppInstance) (s : State)
    → P value
    → Every P s
    → EndsEvery P (create_instance out name value s)
unfolding create_instance
create_instance-Every P out name value s h every =
    by_option {A = ℕ} {B = Ran ℕ} (λ r. EndsEvery P r) (out.answer s.tick)
      (fails store_failed (ticked s))
      (λ v.
        if is_some (lookup name s.instances)
        then fails store_failed (ticked s)
        else stored name value v none s)
      (λ q. failed-Every P store_failed s every)
      (λ v q.
        by_if {A = Ran ℕ} (λ r. EndsEvery P r) (is_some (lookup name s.instances))
          (fails store_failed (ticked s)) (stored name value v none s)
          (λ other. failed-Every P store_failed s every)
          (λ same. stored-Every P name value v none s h every))

-- A predicate that does not look at the reverse references.
abbrev pub IgnoresRefs : (AppInstance → Type 0) → Type 0
IgnoresRefs P =
    (inst : AppInstance) (refs : List Text) → P inst → P (record inst { ref_by_instances = refs })

pub done : (P : AppInstance → Type 0) (s : State) → Every P s → EndsEvery P (pure tt s)
unfolding Ends
done P s every = every

wrote-Every :
    (P : AppInstance → Type 0) (r : Ran ℕ) → EndsEvery P r → EndsEvery P (r then_run λ v. pure tt)
wrote-Every P r h =
    then_run-Ends (λ a t. Every P t) (λ a t. Every P t) (λ e t. Every P t) r _ h
      (λ v t every. done P t every)

put_refs-Every :
    (P : AppInstance → Type 0) (out : Outside) (name : Text) (add : Bool) (target : Text)
    (e : Entry) (s : State)
    → IgnoresRefs P
    → P e.value
    → Every P s
    → EndsEvery P (put_refs out name add target e s)
put_refs-Every P out name add target e s ignores h every =
    by_option {A = List Text} {B = Op (Unit {0})} (λ m. EndsEvery P (m s))
      (new_refs add name e.value.ref_by_instances) (pure tt)
      (λ refs.
        write_instance out target (record e.value { ref_by_instances = refs }) e.version none
        >>= λ v. pure tt)
      (λ q. done P s every)
      (λ refs q.
        wrote-Every P
          (write_instance out target (record e.value { ref_by_instances = refs }) e.version none s)
          (write_instance-Every P out target (record e.value { ref_by_instances = refs }) e.version
            none s (ignores e.value refs h) every))

read-Found :
    (P : AppInstance → Type 0) (out : Outside) (target : Text) (s : State)
    → Every P s
    → Ends
        (λ a t. (a ≡ lookup target s.instances) × (t.instances ≡ s.instances))
        (λ e t. Every P t)
        (read out (λ (t : State). lookup target t.instances) s)
unfolding Ends
read-Found P out target s every =
    by_if {A = Ran (Option Entry)}
      (λ r.
        Ends (λ a t. (a ≡ lookup target s.instances) × (t.instances ≡ s.instances))
          (λ e t. Every P t) r)
      (out.read_fails s.tick) (fails store_failed (ticked s))
      (returns (lookup target s.instances) (ticked s)) (λ h. every) (λ h. (refl, refl))

pub update_ref-Every :
    (P : AppInstance → Type 0) (out : Outside) (name : Text) (add : Bool) (target : Text)
    (s : State)
    → IgnoresRefs P
    → Every P s
    → EndsEvery P (update_ref out name add target s)
unfolding update_ref
update_ref-Every P out name add target s ignores every =
    then_run-Ends (λ a t. (a ≡ lookup target s.instances) × (t.instances ≡ s.instances))
      (λ a t. Every P t) (λ e t. Every P t) (read out (λ (t : State). lookup target t.instances) s)
      _ (read-Found P out target s every)
      (λ found t h. elim (Option-cases found) [
        | inl absent ↦ rw absent (done P t (Every-moved P s t h.1 every))
        | inr (e, present) ↦ rw present (
            put_refs-Every P out name add target e t ignores (every target e (sym h.0 ∙ present))
              (Every-moved P s t h.1 every))
      ])

pub update_all-Every :
    (P : AppInstance → Type 0) (out : Outside) (name : Text) (add : Bool) (targets : List Text)
    (s : State)
    → IgnoresRefs P
    → Every P s
    → EndsEvery P (update_all out name add targets s)
unfolding update_all
update_all-Every P out name add [] s ignores every = done P s every
update_all-Every P out name add (target ∷ rest) s ignores every =
    then_run-Ends (λ a t. Every P t) (λ a t. Every P t) (λ e t. Every P t)
      (update_ref out name add target s) _ (update_ref-Every P out name add target s ignores every)
      (λ u t kept. update_all-Every P out name add rest t ignores kept)

ignored :
    (P : AppInstance → Type 0) (r : Ran (Unit {0}))
    → EndsEvery P r
    → EndsEvery P (elim r [ returns u t ↦ returns tt t | fails e t ↦ returns tt t ])
unfolding Ends
ignored P (returns u t) h = h
ignored P (fails e t) h = h

pub try_reverse_refs-Every :
    (P : AppInstance → Type 0) (out : Outside) (name : Text) (prev next : List Text) (s : State)
    → IgnoresRefs P
    → Every P s
    → EndsEvery P (try_reverse_refs out name prev next s)
unfolding try_reverse_refs update_reverse_refs
try_reverse_refs-Every P out name prev next s ignores every =
    ignored P (update_reverse_refs out name prev next s) (
      then_run-Ends (λ a t. Every P t) (λ a t. Every P t) (λ e t. Every P t)
        (update_all out name true next s) _ (update_all-Every P out name true next s ignores every)
        (λ u t kept. update_all-Every P out name false (dropped_names prev next) t ignores kept))
