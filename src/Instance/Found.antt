-- ===== src/Instance/Found.antt =====
-- What the first steps of a handler establish.
use innerstack.Prelude.{
  text_key, same_refl, true≢false, Bool-cases, inl, inr, ◌≡◌, refl, sym, ap, ◌∙◌, Bool, true, false,
  not, [], ◌∷◌, Option, Text, by_if, ◌==◌,
}
use innerstack.Prelude.Map.{lookup}
use innerstack.Instance.Names.{dns_label_valid}
use innerstack.Instance.{
  Entry, State, Outside, Op, Ran, returns, fails, Error, store_failed, permission_denied,
  not_leader, name_required, bad_name, guard, ◌then_run◌, ticked, load_instance,
}
use innerstack.Instance.Handlers.{check_call}
use innerstack.Instance.Ends.{Ends, QuietAt, after_quiet, guard-Quiet}
use innerstack.Instance.Checked.{Unchanged}

-- A guard that lets a call go on.
abbrev pub Passed : Bool → State → Unit {0} → State → Type 0
Passed b s u t = (b ≡ true) × (t.instances ≡ s.instances)

pub guard-Passed :
    (b : Bool) (e : Error) (s : State) → Ends (Passed b s) (Unchanged s) (guard b e s)
unfolding Ends
guard-Passed true e s = (refl, refl)
guard-Passed false e s = refl

-- The entry of a name that is not empty.
abbrev pub Loaded : Text → State → Option Entry → State → Type 0
Loaded name s found t = (found ≡ lookup name s.instances) × (t.instances ≡ s.instances)

pub load_instance-Loaded :
    (out : Outside) (name : Text) (s : State)
    → name == [] ≡ false
    → Ends (Loaded name s) (Unchanged s) (load_instance out name s)
unfolding load_instance Ends
load_instance-Loaded out [] s h = absurd (true≢false (sym (same_refl {A = Text} []) ∙ h))
load_instance-Loaded out (c ∷ rest) s h =
    by_if {A = Ran (Option Entry)} (λ r. Ends (Loaded (c ∷ rest) s) (Unchanged s) r)
      (out.read_fails s.tick) (fails store_failed (ticked s))
      (returns (lookup (c ∷ rest) s.instances) (ticked s)) (λ q. refl) (λ q. (refl, refl))

go_on :
    (b : Bool) (s u : State) (r : Ran (Unit {0}))
    → b ≡ true
    → u.instances ≡ s.instances
    → QuietAt u r
    → Ends (Passed b s) (Unchanged s) r
unfolding Ends
go_on b s u (returns a t) h moved quiet = (h, quiet ∙ moved)
go_on b s u (fails e t) h moved quiet = quiet ∙ moved

named :
    (b : Bool) (s u : State) (r : Ran (Unit {0})) (f : Unit {0} → Op (Unit {0}))
    → u.instances ≡ s.instances
    → Ends (Passed b u) (Unchanged u) r
    → ((a : Unit {0}) (t : State) → QuietAt t (f a t))
    → Ends (Passed b s) (Unchanged s) (r then_run f)
unfolding Ends
named b s u (returns a t) f moved h quiet = go_on b s t (f a t) h.0 (h.1 ∙ moved) (quiet a t)
named b s u (fails e t) f moved h quiet = h ∙ moved

-- A call that the checks let go on has a name.
pub check_call-Passed :
    (out : Outside) (name : Text) (s : State)
    → Ends (Passed (not (name == [])) s) (Unchanged s) (check_call out name s)
unfolding check_call
check_call-Passed out name s =
    after_quiet (Passed (not (name == [])) s) (Unchanged s) s
      (guard out.allowed permission_denied s) _ (guard-Quiet _ _ s) (λ e t h. h)
      (λ u1 t1 h1.
        after_quiet (Passed (not (name == [])) s) (Unchanged s) t1
          (guard out.is_leader not_leader t1) _ (guard-Quiet _ _ t1) (λ e t h. h ∙ h1)
          (λ u2 t2 h2.
            named (not (name == [])) s t2 (guard (not (name == [])) name_required t2) _ (h2 ∙ h1)
              (guard-Passed (not (name == [])) name_required t2)
              (λ u3 t3. guard-Quiet (dns_label_valid name) (bad_name name) t3)))

pub is_named : (name : Text) → not (name == []) ≡ true → name == [] ≡ false
is_named name h = elim (Bool-cases (name == [])) [
  | inl empty ↦ absurd (true≢false (sym h ∙ ap not empty))
  | inr named ↦ named
]
