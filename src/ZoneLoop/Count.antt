-- ===== src/ZoneLoop/Count.antt =====
-- What the pass counts as allocated on a host: the limits of each replica that is placed there.
use innerstack.Prelude.{
  ◌≡◌, refl, ap, sym, ◌∙◌, ◌≢◌, Bool, true, false, List, [], ◌∷◌, ◌++◌, Option, none, some, Text,
  if◌then◌else◌, ◌==◌, text_key, text_eq_iff, find?, arith, Bool-cases, Option-cases, inl, inr,
}
use innerstack.Prelude.Map.{Map, lookup}
use innerstack.Scheduler.{ScheduleHostItem}
use innerstack.ZoneLoop.{App, Replica, is_unplaced}
use innerstack.ZoneLoop.Place.{alloc_on, count_replica, count_replicas, count_apps}

-- The scheduler's record of a host.
abbrev pub item_of : Text → List ScheduleHostItem → Option ScheduleHostItem
item_of id hosts = find? (λ v. v.id == id) hosts

-- An app once for each of its replicas on a host.
pub on_host : Text → App → List Replica → List App
on_host id app [] = []
on_host id app (rep ∷ rest) =
    let later = on_host id app rest in if rep.host_id == id then app ∷ later else later

-- The same, of the named apps.
pub all_on_host : Text → List Text → Map Text App → List App
unfolding on_host
all_on_host id [] apps = []
all_on_host id (name ∷ rest) apps =
    (elim (lookup name apps) [ none ↦ [] | some app ↦ on_host id app app.replicas ])
    ++ all_on_host id rest apps

-- A host with the limits of a list of apps added, one after the other.
pub alloc_all : List App → Option ScheduleHostItem → Option ScheduleHostItem
alloc_all [] v = v
alloc_all (app ∷ rest) none = none
alloc_all (app ∷ rest) (some v) = alloc_all rest (some (alloc_on app v))

alloc_one : App → Option ScheduleHostItem → Option ScheduleHostItem
alloc_one app none = none
alloc_one app (some v) = some (alloc_on app v)

alloc_all-none : (xs : List App) → alloc_all xs none ≡ none
unfolding alloc_all
alloc_all-none [] = refl
alloc_all-none (x ∷ xs) = refl

alloc_all-one :
    (x : App) (xs : List App) (v : Option ScheduleHostItem)
    → alloc_all xs (alloc_one x v) ≡ alloc_all (x ∷ xs) v
unfolding alloc_all alloc_one
alloc_all-one x [] none = refl
alloc_all-one x (y ∷ ys) none = refl
alloc_all-one x xs (some v) = refl

alloc_all-append :
    (xs ys : List App) (v : Option ScheduleHostItem)
    → alloc_all (xs ++ ys) v ≡ alloc_all ys (alloc_all xs v)
unfolding alloc_all
alloc_all-append [] ys v = refl
alloc_all-append (x ∷ xs) ys none = ap (λ o. o) (alloc_all_none_sym ys)
  where
    alloc_all_none_sym : (zs : List App) → none ≡ alloc_all zs none
    alloc_all_none_sym [] = refl
    alloc_all_none_sym (z ∷ zs) = refl
alloc_all-append (x ∷ xs) ys (some v) = alloc_all-append xs ys (some (alloc_on x v))

item_of-count_replica :
    (id i : Text) (app : App) (hosts : List ScheduleHostItem)
    → item_of id (count_replica app i hosts)
      ≡ (if i == id then alloc_one app (item_of id hosts) else item_of id hosts)
unfolding count_replica alloc_one
item_of-count_replica id i app [] = ground arith
item_of-count_replica id i app (v ∷ vs) = ground (
  arith,
  item_of-count_replica id i app vs,
  text_eq_iff v.id i,
  text_eq_iff v.id id,
  text_eq_iff i id,
)

if_true : {A : Type 0} {b : Bool} {x : A} (y : A) → b ≡ true → (if b then x else y) ≡ x
if_true y e = rw e refl

if_false : {A : Type 0} {b : Bool} (x : A) {y : A} → b ≡ false → (if b then x else y) ≡ y
if_false x e = rw e refl

module _ (id : Text) (named : id ≢ []) where
  item_of_step :
      (app : App) (rep : Replica) (hosts : List ScheduleHostItem)
      → item_of id (if is_unplaced rep then hosts else count_replica app rep.host_id hosts)
        ≡ (if rep.host_id == id then alloc_one app (item_of id hosts) else item_of id hosts)
  item_of_step app rep hosts = elim (Bool-cases (is_unplaced rep)) [
    | inl e ↦ ground (arith, e, named, text_eq_iff rep.host_id [], text_eq_iff rep.host_id id)
    | inr e ↦ rw e (item_of-count_replica id rep.host_id app hosts)
  ]

  item_of-count_replicas :
      (app : App) (reps : List Replica) (hosts : List ScheduleHostItem)
      → item_of id (count_replicas app reps hosts)
        ≡ alloc_all (on_host id app reps) (item_of id hosts)
  unfolding count_replicas on_host alloc_all
  item_of-count_replicas app [] hosts = refl
  item_of-count_replicas app (rep ∷ rest) hosts =
      let hosts' : List ScheduleHostItem =
        if is_unplaced rep then hosts else count_replica app rep.host_id hosts in
      item_of-count_replicas app rest hosts' ∙ elim (Bool-cases (rep.host_id == id)) [
        | inl e ↦
            let step : item_of id hosts' ≡ alloc_one app (item_of id hosts) =
              item_of_step app rep hosts ∙ if_true _ e in
            rw e (
              ap (alloc_all (on_host id app rest)) step
              ∙ alloc_all-one app (on_host id app rest) (item_of id hosts))
        | inr e ↦
            let step : item_of id hosts' ≡ item_of id hosts =
              item_of_step app rep hosts ∙ if_false _ e in
            rw e (ap (alloc_all (on_host id app rest)) step)
      ]

  -- The count gives a host the limits of each replica on it, once for each, and of nothing else; the
  -- host's id is not empty.
  pub item_of-count_apps :
      (names : List Text) (apps : Map Text App) (hosts : List ScheduleHostItem)
      → item_of id (count_apps names apps hosts)
        ≡ alloc_all (all_on_host id names apps) (item_of id hosts)
  unfolding count_apps all_on_host alloc_all
  item_of-count_apps [] apps hosts = refl
  item_of-count_apps (name ∷ rest) apps hosts = elim (Option-cases (lookup name apps)) [
    | inl e ↦ rw (e, count_apps, all_on_host) (item_of-count_apps rest apps hosts)
    | inr (app, e) ↦
        rw (e, count_apps, all_on_host)
          (item_of-count_apps rest apps (count_replicas app app.replicas hosts)
            ∙ ap (alloc_all (all_on_host id rest apps))
                (item_of-count_replicas app app.replicas hosts)
            ∙ sym (
                alloc_all-append (on_host id app app.replicas) (all_on_host id rest apps)
                  (item_of id hosts)))
  ]
