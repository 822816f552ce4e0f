-- ===== src/Instance/Told.antt =====
-- One round of the update of reverse references.
use innerstack.Prelude.{
  text_key, ℕ, ◌≡◌, refl, sym, ap, ◌∙◌, inl, inr, Bool, List, [], ◌∷◌, Option, none, some, Text,
  if◌then◌else◌, by_if, by_option, ◌==◌, text_eq_iff, Bool-cases, Option-cases, contains, same_refl,
  number_key, false≢true,
}
use innerstack.Prelude.Map.{lookup, insert, lookup-insert}
use innerstack.Instance.{
  AppInstance, Entry, State, Outside, Op, Ran, returns, fails, store_failed, pure, ◌>>=◌,
  ◌then_run◌, ticked, read, write_instance,
}
use innerstack.Instance.Refs.{new_refs, put_refs, update_ref}
use innerstack.Instance.Ends.{Ends, then_run-Ends}
use innerstack.Instance.Listed.{
  lists, new_refs_lem, new_refs_same, Reliable, Wrote, write_instance-Wrote,
}

-- What an instance is to say of another, where there is one.
abbrev pub said : Bool → Option Bool → Option Bool
said add none = none
said add (some b) = some add

-- Whether each instance lists `name`, after those among `targets` were told to or not to.
abbrev pub Told : Text → Bool → List Text → State → State → Type 0
Told name add targets s t =
    (k : Text)
    → lists name (lookup k t.instances) ≡ (
        if contains targets k
        then said add (lists name (lookup k s.instances))
        else lists name (lookup k s.instances))

lists-insert :
    (name target : Text) (add : Bool) (old new : Entry) (s : State) (k : Text)
    → lookup target s.instances ≡ some old
    → contains new.value.ref_by_instances name ≡ add
    → lists name (lookup k (insert target new s.instances)) ≡ (
        if contains (target ∷ []) k
        then said add (lists name (lookup k s.instances))
        else lists name (lookup k s.instances))
lists-insert name target add old new s k found told = elim (Bool-cases (target == k)) [
  | inl same ↦
      let e : target ≡ k = (text_eq_iff target k).0 same in
      let here : lookup k s.instances ≡ some old = ap (λ n. lookup n s.instances) (sym e) ∙ found in
      rw (lookup-insert, same, here, told) refl
  | inr other ↦ rw (lookup-insert, other) refl
]

write-Told :
    (out : Outside) (name target : Text) (add : Bool) (old : Entry) (value : AppInstance)
    (ttl : Option ℕ) (s : State) (r : Ran ℕ)
    → lookup target s.instances ≡ some old
    → contains value.ref_by_instances name ≡ add
    → Wrote out target value ttl s r
    → Ends
        (λ a t. Told name add (target ∷ []) s t)
        (λ e t. ¬ Reliable out)
        (r then_run λ v. pure {A = Unit {0}} tt)
unfolding Ends
write-Told out name target add old value ttl s (returns v t) found told wrote = λ k.
    ap (λ m. lists name (lookup k m)) wrote
    ∙ lists-insert name target add old (record { value = value; version = v; ttl = ttl }) s k found
        told
write-Told out name target add old value ttl s (fails e t) found told wrote = wrote

-- Nothing is written where the instance is not there, or says it already.
same-Told :
    (name target : Text) (add : Bool) (s t : State)
    → t.instances ≡ s.instances
    → lists name (lookup target s.instances) ≡ said add (lists name (lookup target s.instances))
    → Told name add (target ∷ []) s t
same-Told name target add s t moved already k = elim (Bool-cases (target == k)) [
  | inl same ↦ let e : target ≡ k = (text_eq_iff target k).0 same in rw (moved, same, sym e) already
  | inr other ↦ rw (moved, other) refl
]

already-Told :
    (out : Outside) (name target : Text) (add : Bool) (s t : State)
    → Told name add (target ∷ []) s t
    → Ends
        (λ a u. Told name add (target ∷ []) s u)
        (λ q u. ¬ Reliable out)
        (pure {A = Unit {0}} tt t)
unfolding Ends
already-Told out name target add s t h = h

before-Told :
    (out : Outside) (name target : Text) (add : Bool) (s t : State) (r : Ran (Unit {0}))
    → s.instances ≡ t.instances
    → Ends (λ a u. Told name add (target ∷ []) t u) (λ q u. ¬ Reliable out) r
    → Ends (λ a u. Told name add (target ∷ []) s u) (λ q u. ¬ Reliable out) r
unfolding Ends
before-Told out name target add s t (returns a u) same h = λ k. rw same (h k)
before-Told out name target add s t (fails e u) same h = h

read-Loaded :
    (out : Outside) (target : Text) (s : State)
    → Ends
        (λ a t. (a ≡ lookup target s.instances) × (t.instances ≡ s.instances))
        (λ e t. ¬ Reliable out)
        (read out (λ (t : State). lookup target t.instances) s)
unfolding Ends
read-Loaded out target s =
    by_if {A = Ran (Option Entry)}
      (λ r.
        Ends (λ a t. (a ≡ lookup target s.instances) × (t.instances ≡ s.instances))
          (λ e t. ¬ Reliable out) r)
      (out.read_fails s.tick) (fails store_failed (ticked s))
      (returns (lookup target s.instances) (ticked s))
      (λ h reliable. absurd (false≢true (sym (reliable.0 s.tick) ∙ h))) (λ h. (refl, refl))

put_refs-Told :
    (out : Outside) (name target : Text) (add : Bool) (e : Entry) (s t : State)
    → t.instances ≡ s.instances
    → lookup target t.instances ≡ some e
    → Ends
        (λ a u. Told name add (target ∷ []) s u)
        (λ q u. ¬ Reliable out)
        (put_refs out name add target e t)
put_refs-Told out name target add e s t moved found =
    by_option {A = List Text} {B = Op (Unit {0})}
      (λ m. Ends (λ a u. Told name add (target ∷ []) s u) (λ q u. ¬ Reliable out) (m t))
      (new_refs add name e.value.ref_by_instances) (pure tt)
      (λ refs.
        write_instance out target (record e.value { ref_by_instances = refs }) e.version none
        >>= λ v. pure tt)
      (λ q. already-Told out name target add s t (
        same-Told name target add s t moved
          (rw (sym moved, found, new_refs_same add name e.value.ref_by_instances q) refl)))
      (λ refs q. before-Told out name target add s t _ (sym moved) (
        write-Told out name target add e (record e.value { ref_by_instances = refs }) none t
          (write_instance out target (record e.value { ref_by_instances = refs }) e.version none t)
          found (new_refs_lem add name e.value.ref_by_instances refs q)
          (write_instance-Wrote out target (record e.value { ref_by_instances = refs }) e.version
            none t (rw found (same_refl e.version)))))

pub update_ref-Told :
    (out : Outside) (name target : Text) (add : Bool) (s : State)
    → Ends
        (λ a t. Told name add (target ∷ []) s t)
        (λ e t. ¬ Reliable out)
        (update_ref out name add target s)
unfolding update_ref
update_ref-Told out name target add s =
    then_run-Ends (λ a t. (a ≡ lookup target s.instances) × (t.instances ≡ s.instances))
      (λ a t. Told name add (target ∷ []) s t) (λ e t. ¬ Reliable out)
      (read out (λ (t : State). lookup target t.instances) s) _ (read-Loaded out target s)
      (λ found t h. elim (Option-cases found) [
        | inl absent ↦ rw absent (
            already-Told out name target add s t
              (same-Told name target add s t h.1 (rw (sym h.0, absent) refl)))
        | inr (e, present) ↦ rw present (
            put_refs-Told out name target add e s t h.1
              (ap (lookup target) h.1 ∙ sym h.0 ∙ present))
      ])
