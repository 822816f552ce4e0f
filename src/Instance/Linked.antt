-- ===== src/Instance/Linked.antt =====
-- The reverse references after an instance's dependencies are linked.
use innerstack.Prelude.{
  text_key, ◌≡◌, refl, ap, ◌∙◌, Bool, true, false, not, ◌&&◌, ◌||◌, List, [], ◌∷◌, Option, none,
  some, Text, if◌then◌else◌, ◌==◌, contains, number_key, arith,
}
use innerstack.Prelude.Map.{lookup}
use innerstack.Instance.{State, Outside, Ran, returns, fails, pure}
use innerstack.Instance.Refs.{update_ref, update_all, dropped_names, update_reverse_refs}
use innerstack.Instance.Ends.{Ends, then_run-Ends}
use innerstack.Instance.Listed.{lists, contains-keep_if, Reliable}
use innerstack.Instance.Told.{said, Told, update_ref-Told}

both :
    (add here there : Bool) (o : Option Bool)
    → (if there
        then said add (if here || false then said add o else o)
        else (if here || false then said add o else o))
      ≡ (if here || there then said add o else o)
both add here there none = ground (arith)
both add true true (some b) = refl
both add true false (some b) = refl
both add false true (some b) = refl
both add false false (some b) = refl

cons-Told :
    (name target : Text) (rest : List Text) (add : Bool) (s t u : State)
    → Told name add (target ∷ []) s t
    → Told name add rest t u
    → Told name add (target ∷ rest) s u
cons-Told name target rest add s t u first next k =
    next k
    ∙ ap (λ o. if contains rest k then said add o else o) (first k)
    ∙ both add (target == k) (contains rest k) (lists name (lookup k s.instances))

nil-Told :
    (out : Outside) (name : Text) (add : Bool) (s : State)
    → Ends (λ a t. Told name add [] s t) (λ e t. ¬ Reliable out) (pure {A = Unit {0}} tt s)
unfolding Ends
nil-Told out name add s k = refl

rest-Told :
    (out : Outside) (name target : Text) (rest : List Text) (add : Bool) (s t : State)
    (r : Ran (Unit {0}))
    → Told name add (target ∷ []) s t
    → Ends (λ a u. Told name add rest t u) (λ e u. ¬ Reliable out) r
    → Ends (λ a u. Told name add (target ∷ rest) s u) (λ e u. ¬ Reliable out) r
unfolding Ends
rest-Told out name target rest add s t (returns a u) first next =
    cons-Told name target rest add s t u first next
rest-Told out name target rest add s t (fails e u) first next = next

pub update_all-Told :
    (out : Outside) (name : Text) (add : Bool) (targets : List Text) (s : State)
    → Ends
        (λ a t. Told name add targets s t)
        (λ e t. ¬ Reliable out)
        (update_all out name add targets s)
unfolding update_all
update_all-Told out name add [] s = nil-Told out name add s
update_all-Told out name add (target ∷ rest) s =
    then_run-Ends (λ a t. Told name add (target ∷ []) s t)
      (λ a t. Told name add (target ∷ rest) s t) (λ e t. ¬ Reliable out)
      (update_ref out name add target s) _ (update_ref-Told out name target add s)
      (λ u t first.
        rest-Told out name target rest add s t (update_all out name add rest t) first
          (update_all-Told out name add rest t))

-- Whether an instance lists `name` after the change of its dependencies from `prev` to `next`.
abbrev pub linked : List Text → List Text → Text → Option Bool → Option Bool
linked prev next k o =
    if contains next k then said true o else if contains prev k then said false o else o

both_told :
    (p n : Bool) (o : Option Bool)
    → (if not n && p
        then said false (if n then said true o else o)
        else (if n then said true o else o))
      ≡ (if n then said true o else if p then said false o else o)
both_told p true o = refl
both_told p false o = refl

after_added :
    (out : Outside) (name : Text) (prev next : List Text) (s t : State) (r : Ran (Unit {0}))
    → Told name true next s t
    → Ends (λ a u. Told name false (dropped_names prev next) t u) (λ e u. ¬ Reliable out) r
    → Ends
        (λ a u.
          (k : Text)
          → lists name (lookup k u.instances)
            ≡ linked prev next k (lists name (lookup k s.instances)))
        (λ e u. ¬ Reliable out)
        r
unfolding Ends dropped_names
after_added out name prev next s t (returns a u) added dropped = λ k.
    dropped k
    ∙ ap
        (λ b.
          if b
          then said false (lists name (lookup k t.instances))
          else lists name (lookup k t.instances))
        (contains-keep_if (λ n. not (contains next n)) prev k)
    ∙ ap (λ o. if not (contains next k) && contains prev k then said false o else o) (added k)
    ∙ both_told (contains prev k) (contains next k) (lists name (lookup k s.instances))
after_added out name prev next s t (fails e u) added dropped = dropped

-- The update of the reverse references succeeds if no read fails and every write is answered. Where it
-- succeeds, each instance among the next dependencies lists the name, each that is only among the
-- previous ones does not, and every other instance lists it as before; a name without an instance is
-- passed over. This holds for every order of the names and however often one is given.
pub update_reverse_refs-Linked :
    (out : Outside) (name : Text) (prev next : List Text) (s : State)
    → Ends
        (λ a t.
          (k : Text)
          → lists name (lookup k t.instances)
            ≡ linked prev next k (lists name (lookup k s.instances)))
        (λ e t. ¬ Reliable out)
        (update_reverse_refs out name prev next s)
unfolding update_reverse_refs dropped_names
update_reverse_refs-Linked out name prev next s =
    then_run-Ends (λ a t. Told name true next s t)
      (λ a t.
        (k : Text)
        → lists name (lookup k t.instances)
          ≡ linked prev next k (lists name (lookup k s.instances)))
      (λ e t. ¬ Reliable out) (update_all out name true next s) _
      (update_all-Told out name true next s)
      (λ u t added.
        after_added out name prev next s t (update_all out name false (dropped_names prev next) t)
          added (update_all-Told out name false (dropped_names prev next) t))
