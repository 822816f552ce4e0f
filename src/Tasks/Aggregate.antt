-- ===== src/Tasks/Aggregate.antt =====
-- When the tasks of the start are reported as a success, a failure or running.
use innerstack.Prelude.{
  ℕ, ◌+◌, ◌≤◌, ◌≡◌, refl, sym, ◌∙◌, ap, ◌≢◌, ◌↔◌, ◌⊎◌, true, false, ◌||◌, List, [], ◌∷◌, Option,
  none, some, Text, arith, All, inl, inr, Bool-cases, ltb, eqb, by_if, text_eq, text_eq_iff,
  text_key,
}
use innerstack.Prelude.Map.{Map, lookup}
use innerstack.Tasks.{Task, ExecutorStatus, exec_running}
use innerstack.Tasks.Report.{
  Tally, has_failed, has_succeeded, tally_status, tally, empty_tally, aggregate_of,
  on_startup_aggregate, app_stage_state_success, app_stage_state_failed, app_stage_state_running,
}

-- The last execution of a task succeeded.
abbrev pub IsOk : Option ExecutorStatus → Type 0
IsOk none = ⊥
IsOk (some es) = (has_failed es ≡ false) × (has_succeeded es ≡ true)

abbrev pub IsFailing : Option ExecutorStatus → Type 0
IsFailing none = ⊥
IsFailing (some es) = has_failed es ≡ true

abbrev open_count : Tally → ℕ
open_count t = t.pending + t.running + t.failed

text_differ : (a b : Text) → text_eq a b ≡ false → a ≢ b
text_differ a b f e = let t = (text_eq_iff a b).1 e in cc

failed_differs : app_stage_state_failed ≢ app_stage_state_success
unfolding text_eq
failed_differs = text_differ app_stage_state_failed app_stage_state_success refl

running_differs : app_stage_state_running ≢ app_stage_state_success
unfolding text_eq
running_differs = text_differ app_stage_state_running app_stage_state_success refl

-- One status: it is counted as open exactly if it is not a success.
tally_status_cases :
    (name : Text) (o : Option ExecutorStatus) (t : Tally)
    → (IsOk o × (tally_status name o t ≡ t))
      ⊎ ((¬ IsOk o)
          × (open_count (tally_status name o t) ≡ open_count t + 1)
          × ((tally_status name o t).names ≡ t.names))
unfolding tally_status
tally_status_cases name none t = inr ((λ h. h), omega arith, refl)
tally_status_cases name (some es) t = elim (Bool-cases (has_failed es)) [
  | inl f ↦ inr ((λ p. let q = p.0 in cc), rw f (omega arith), rw f refl)
  | inr f ↦ elim (Bool-cases (has_succeeded es)) [
    | inl d ↦ inl ((f, d), rw (f, d) refl)
    | inr d ↦ inr (
      (λ p. let q = p.1 in cc),
      rw (f, d)
          (by_if (λ (u : Tally). open_count u ≡ open_count t + 1) (text_eq es.state exec_running) _
            _ (λ e. omega arith) (λ e. omega arith)),
      rw (f, d)
          (by_if (λ (u : Tally). u.names ≡ t.names) (text_eq es.state exec_running) _ _ (λ e. refl)
            (λ e. refl)),
    )
  ]
]

module _ (statuses : Map Text ExecutorStatus) where
  abbrev pub StartupOk : Task → Type 0
  StartupOk task = task.on_startup ≡ true → IsOk (lookup task.name statuses)

  tally_bounds :
      (tasks : List Task) (t : Tally)
      → (open_count t ≤ open_count (tally statuses tasks t))
        × (open_count (tally statuses tasks t) + t.names
            ≤ (tally statuses tasks t).names + open_count t)
  unfolding tally
  tally_bounds [] t = (omega arith, omega arith)
  tally_bounds (task ∷ rest) t = elim (Bool-cases task.on_startup) [
    | inr off ↦ rw off (tally_bounds rest t)
    | inl on ↦
        let t' : Tally = record t { names = t.names + 1 } in
        let u = tally_status task.name (lookup task.name statuses) t' in
        let (a, b) = tally_bounds rest u in
        elim (tally_status_cases task.name (lookup task.name statuses) t') [
          | inl (o, e) ↦
              let n : open_count u ≡ open_count t = ap open_count e in
              let m : u.names ≡ t.names + 1 = ap (λ (v : Tally). v.names) e in
              rw on (omega arith, omega arith)
          | inr (o, n, m) ↦ rw on (omega arith, omega arith)
        ]
  ]

  tally_iff :
      (tasks : List Task) (t : Tally)
      → (open_count (tally statuses tasks t) ≡ open_count t) ↔ All StartupOk tasks
  unfolding tally
  tally_iff [] t = (λ h. tt, λ h. refl)
  tally_iff (task ∷ rest) t = elim (Bool-cases task.on_startup) [
    | inr off ↦
        let (to, from) = tally_iff rest t in
        rw off ((λ h. ((λ on. absurd cc), to h)), (λ h. from h.1))
    | inl on ↦
        let t' : Tally = record t { names = t.names + 1 } in
        let u = tally_status task.name (lookup task.name statuses) t' in
        let (to, from) = tally_iff rest u in
        elim (tally_status_cases task.name (lookup task.name statuses) t') [
          | inl (o, e) ↦
              let n : open_count u ≡ open_count t = ap open_count e in
              rw on ((λ h. ((λ p. o), to (h ∙ sym n))), (λ h. from h.1 ∙ n))
          | inr (o, n, m) ↦
              let (above, b) = tally_bounds rest u in
              rw on ((λ h. absurd (omega (arith, h, n, above))), (λ h. absurd (o (h.0 refl))))
        ]
  ]

  aggregate_of_success :
      (t : Tally)
      → (t.names ≡ 0 → open_count t ≡ 0)
      → ((aggregate_of t).0 ≡ app_stage_state_success) ↔ (open_count t ≡ 0)
  unfolding aggregate_of
  aggregate_of_success t z = elim (Bool-cases (eqb t.names 0)) [
    | inl e ↦ rw e ((λ h. z (ground (arith, e))), (λ h. refl))
    | inr e ↦ elim (Bool-cases (ltb 0 t.failed)) [
      | inl f ↦ rw (e, f) ((λ h. absurd (failed_differs h)), (λ h. absurd (ground (arith, f, h))))
      | inr f ↦ elim (Bool-cases (ltb 0 t.running || ltb 0 t.pending)) [
        | inl g ↦
            rw (e, f, g) ((λ h. absurd (running_differs h)), (λ h. absurd (ground (arith, g, h))))
        | inr g ↦ rw (e, f, g) ((λ h. ground (arith, f, g)), (λ h. refl))
      ]
    ]
  ]

  -- The start is reported as a success exactly if the last execution of every task of the start
  -- succeeded: it has a status that is done and has not failed since. With no such task it is a success.
  pub on_startup_aggregate-success :
      (tasks : List Task)
      → ((on_startup_aggregate statuses tasks).0 ≡ app_stage_state_success) ↔ All StartupOk tasks
  unfolding on_startup_aggregate
  on_startup_aggregate-success tasks =
      let t = tally statuses tasks empty_tally in
      let (a, b) = tally_bounds tasks empty_tally in
      let (to, from) = tally_iff tasks empty_tally in
      let (to', from') = aggregate_of_success t (λ z. omega arith) in
      ((λ h. to (to' h)), (λ h. from' (from h)))
