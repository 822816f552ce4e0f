-- ===== src/ZoneLoop/Steady.antt =====
-- What a pass leaves alone: the apps under other names than those it works on.
use innerstack.Prelude.{
  ℕ, ◌≡◌, refl, sym, ap, subst, ◌∙◌, ◌≢◌, inl, inr, List, none, some, Text, ◌==◌, text_key,
  text_eq_iff, arith, Bool-cases, Option-cases,
}
use innerstack.Prelude.Int.{ℤ}
use innerstack.Prelude.Map.{Map, lookup, insert, lookup-insert, lookup-insert_ne}
use innerstack.Stages.{reconcile}
use innerstack.ZoneLoop.{
  App, HostEntry, Outside, ZoneState, Outcome, ◌then_do◌, ticked, put_app, flush_app, write_host,
  bump_revision, stamp_stage, at_replica_child, reconcile_app,
}

-- Each app of the set stands under its name.
abbrev pub WellNamed : Map Text App → Type 0
WellNamed apps = (name : Text) (app : App) → lookup name apps ≡ some app → app.name ≡ name

-- From `s` to `t` nothing happens to the app under `k`, in memory and in the store.
pub record Steady (k : Text) (s t : ZoneState) : Type 0 where
  pub apps : lookup k t.apps ≡ lookup k s.apps
  pub stored : lookup k t.stored_apps ≡ lookup k s.stored_apps
  pub named : WellNamed s.apps → WellNamed t.apps

pub Steady-refl : (k : Text) (s : ZoneState) → Steady k s s
Steady-refl k s = record { apps = refl; stored = refl; named = λ w. w }

pub Steady-trans : (k : Text) (s t u : ZoneState) → Steady k s t → Steady k t u → Steady k s u
Steady-trans k s t u a b = record {
  apps = b.apps ∙ a.apps;
  stored = b.stored ∙ a.stored;
  named = λ w. b.named (a.named w);
}

WellNamed-insert :
    (app : App) (apps : Map Text App) → WellNamed apps → WellNamed (insert app.name app apps)
WellNamed-insert app apps w name a h = elim (Bool-cases (app.name == name)) [
  | inl same ↦
      let e : app ≡ a = ground (arith, lookup-insert app.name name app apps, same, h) in
      rw (← e) ((text_eq_iff app.name name).0 same)
  | inr other ↦ w name a (ground (arith, lookup-insert app.name name app apps, other, h))
]

-- A state that differs from another in neither the apps nor the stored ones.
pub Steady-same :
    (k : Text) (s t : ZoneState) → t.apps ≡ s.apps → t.stored_apps ≡ s.stored_apps → Steady k s t
Steady-same k s t e f = record {
  apps = ap (λ (m : Map Text App). lookup k m) e;
  stored = ap (λ (m : Map Text App). lookup k m) f;
  named = λ w. subst (λ (m : Map Text App). WellNamed m) (sym e) w;
}

module _ (k : Text) (app : App) (other : app.name ≢ k) where
  pub put_app-Steady : (s : ZoneState) → Steady k s (put_app app s)
  put_app-Steady s = record {
    apps = lookup-insert_ne app.name k app s.apps other;
    stored = refl;
    named = WellNamed-insert app s.apps;
  }

  pub flush_app-Steady : (out : Outside) (s : ZoneState) → Steady k s (flush_app out app s).1
  unfolding flush_app
  flush_app-Steady out s = elim (Option-cases (out.answer s.tick)) [
    | inl e ↦ rw (e, flush_app) (Steady-same k s (ticked s) refl refl)
    | inr (v, e) ↦
        rw (e, flush_app)
          (record {
            apps = refl;
            stored = lookup-insert_ne app.name k app s.stored_apps other;
            named = λ w. w;
          })
  ]

pub write_host-Steady :
    (k : Text) (out : Outside) (id : Text) (h : HostEntry) (s : ZoneState)
    → Steady k s (write_host out id h s).1
unfolding write_host
write_host-Steady k out id h s = elim (Option-cases (out.answer s.tick)) [
  | inl e ↦ rw (e, write_host) (Steady-same k s (ticked s) refl refl)
  | inr (v, e) ↦ rw (e, write_host) (Steady-same k s _ refl refl)
]

-- A sequence of two steps, the second of which runs only if the first has no fault.
pub then_do-Steady :
    (k : Text) (s : ZoneState) (r : Outcome) (next : ZoneState → Outcome)
    → Steady k s r.1
    → ((t : ZoneState) → Steady k s t → Steady k t (next t).1)
    → Steady k s (r then_do next).1
then_do-Steady k s (none, t) next a f = Steady-trans k s t (next t).1 a (f t a)
then_do-Steady k s (some e, t) next a f = a

pub bump_revision-name :
    (app : App) (bumped : List Text) → (bump_revision app bumped).0.name ≡ app.name
unfolding bump_revision
bump_revision-name app bumped = ground arith

pub stamp_stage-name :
    (now : ℤ) (rep_id : ℕ) (name msg : Text) (app : App)
    → (stamp_stage now rep_id name msg app).name ≡ app.name
unfolding stamp_stage at_replica_child
stamp_stage-name now rep_id name msg app = refl

pub reconcile_app-Steady :
    (k : Text) (out : Outside) (app : App) (s : ZoneState)
    → app.name ≢ k
    → Steady k s (reconcile_app out app s)
unfolding reconcile_app
reconcile_app-Steady k out app s other =
    let d = (reconcile (out.clock s.tick) app.deploy).1 in
    let app' : App = record app { deploy = d } in
    let t : ZoneState = put_app app' (ticked s) in
    let a : Steady k s t =
      Steady-trans k s (ticked s) t (Steady-same k s (ticked s) refl refl)
        (put_app-Steady k app' other (ticked s)) in
    elim (Bool-cases (reconcile (out.clock s.tick) app.deploy).0) [
      | inl e ↦
          rw (e, reconcile_app)
            (Steady-trans k s t (flush_app out app' t).1 a (flush_app-Steady k app' other out t))
      | inr e ↦ rw (e, reconcile_app) a
    ]
