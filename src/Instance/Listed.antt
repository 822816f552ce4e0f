-- ===== src/Instance/Listed.antt =====
-- Whether an instance lists another, and the writes that change it.
use innerstack.Prelude.{
  text_key, ℕ, ◌≡◌, refl, sym, ap, subst, ◌∙◌, inl, inr, Bool, true, false, not, ◌&&◌, List, [],
  ◌∷◌, ◌++◌, Option, none, some, Text, if◌then◌else◌, by_if, by_option, is_some, ◌==◌, text_eq_iff,
  Bool-cases, contains, same_refl, number_key, false≢true, arith, keep_if,
}
use innerstack.Prelude.Map.{lookup, insert}
use innerstack.Instance.{
  AppInstance, Entry, State, Outside, Ran, fails, store_failed, ticked, stored, is_at,
  write_instance,
}
use innerstack.Instance.Refs.{without, new_refs}
use innerstack.Instance.Ends.{Ends}

-- Whether an instance lists another that depends on it.
abbrev pub lists : Text → Option Entry → Option Bool
lists name none = none
lists name (some e) = some (contains e.value.ref_by_instances name)

contains-append : (l : List Text) (name : Text) → contains (l ++ name ∷ []) name ≡ true
contains-append [] name = ground (arith, same_refl name)
contains-append (x ∷ l) name = ground (arith, contains-append l name)

some_injective {ℓ} : {A : Type ℓ} {a b : A} → some a ≡ some b → a ≡ b
some_injective h = cc

pub contains-keep_if :
    (p : Text → Bool) (l : List Text) (k : Text) → contains (keep_if p l) k ≡ (p k && contains l k)
contains-keep_if p [] k = ground (arith)
contains-keep_if p (x ∷ l) k = elim (Bool-cases (x == k)) [
  | inl same ↦
      let e : x ≡ k = (text_eq_iff x k).0 same in
      ground (arith, ap p e, contains-keep_if p l k, text_eq_iff x k)
  | inr other ↦ ground (arith, contains-keep_if p l k)
]

-- What a new list of references says of the instance.
pub new_refs_lem :
    (add : Bool) (name : Text) (refs next : List Text)
    → new_refs add name refs ≡ some next
    → contains next name ≡ add
unfolding new_refs
new_refs_lem true name refs next h =
    by_if (λ o. o ≡ some next → contains next name ≡ true) (contains refs name) none
      (some (refs ++ name ∷ [])) (λ q same. cc)
      (λ q same. rw (sym (some_injective same)) (contains-append refs name)) h
new_refs_lem false name refs next h =
    by_if (λ o. o ≡ some next → contains next name ≡ false) (not (contains refs name)) none
      (some (without name refs)) (λ q same. cc)
      (λ q same.
        subst (λ l. contains l name ≡ false) (some_injective same)
          (contains-keep_if (λ n. not (n == name)) refs name
            ∙ ap (λ b. not b && contains refs name) (same_refl name)))
      h

pub new_refs_same :
    (add : Bool) (name : Text) (refs : List Text)
    → new_refs add name refs ≡ none
    → contains refs name ≡ add
unfolding new_refs
new_refs_same true name refs h = ground (arith)
new_refs_same false name refs h = ground (arith)

-- No read fails and every write is answered.
abbrev pub Reliable : Outside → Type 0
Reliable out = ((n : ℕ) → out.read_fails n ≡ false) × ((n : ℕ) → is_some (out.answer n) ≡ true)

-- What a write leaves.
abbrev pub Wrote : Outside → Text → AppInstance → Option ℕ → State → Ran ℕ → Type 0
Wrote out name value ttl s r =
    Ends
      (λ v t.
        t.instances ≡ insert name (record { value = value; version = v; ttl = ttl }) s.instances)
      (λ e t. ¬ Reliable out) r

pub write_instance-Wrote :
    (out : Outside) (name : Text) (value : AppInstance) (prev : ℕ) (ttl : Option ℕ) (s : State)
    → is_at prev (lookup name s.instances) ≡ true
    → Wrote out name value ttl s (write_instance out name value prev ttl s)
unfolding write_instance Ends
write_instance-Wrote out name value prev ttl s current =
    by_option {A = ℕ} {B = Ran ℕ} (Wrote out name value ttl s) (out.answer s.tick)
      (fails store_failed (ticked s))
      (λ v.
        if is_at prev (lookup name s.instances)
        then stored name value v ttl s
        else fails store_failed (ticked s))
      (λ q reliable. absurd (false≢true (sym (ap is_some q) ∙ reliable.1 s.tick)))
      (λ v q.
        by_if {A = Ran ℕ} (Wrote out name value ttl s) (is_at prev (lookup name s.instances))
          (stored name value v ttl s) (fails store_failed (ticked s)) (λ same. refl)
          (λ other. absurd (false≢true (sym other ∙ current))))
