-- ===== src/Tasks/Report.antt =====
-- `OnStartupAggregate` of internal/inagent/task/task.go: the report on the tasks of the start.
use innerstack.Prelude.{
  ℕ, ◌+◌, ◌-◌, Bool, ◌&&◌, ◌||◌, List, [], ◌∷◌, ◌++◌, Option, none, some, Text, bytes,
  if◌then◌else◌, ◌==◌, text_key, ltb, eqb, number_key,
}
use innerstack.Prelude.Int.{pos, ltb_ℤ}
use innerstack.Prelude.Map.{Map, lookup}
use innerstack.Decimal.{decimal}
use innerstack.Tasks.{Task, ExecutorStatus, exec_running}

pub record Tally : Type 0 where
  pub pending : ℕ
  pub running : ℕ
  pub failed : ℕ
  pub failed_name : Text
  pub names : ℕ

unfoldable pub has_failed : ExecutorStatus → Bool
has_failed es = ltb_ℤ (pos 0) es.fail_updated && ltb_ℤ es.done_updated es.fail_updated

unfoldable pub has_succeeded : ExecutorStatus → Bool
has_succeeded es = ltb_ℤ (pos 0) es.done_updated

unfoldable pub tally_status : Text → Option ExecutorStatus → Tally → Tally
tally_status name none t = record t { pending = t.pending + 1 }
tally_status name (some es) t =
    if has_failed es
    then record t {
      failed = t.failed + 1;
      failed_name = if t.failed_name == [] then name else t.failed_name;
    }
    else if has_succeeded es
    then t
    else if es.state == exec_running
    then record t { running = t.running + 1 }
    else record t { pending = t.pending + 1 }

-- The loop of `OnStartupAggregate`.
unfoldable pub tally : Map Text ExecutorStatus → List Task → Tally → Tally
unfolding tally_status
tally statuses [] t = t
tally statuses (task ∷ rest) t =
    let next =
      tally_status task.name (lookup task.name statuses) (record t { names = t.names + 1 }) in
    tally statuses rest (if task.on_startup then next else t)

abbrev pub empty_tally : Tally
empty_tally = record { pending = 0; running = 0; failed = 0; failed_name = []; names = 0 }

abbrev pub app_stage_state_success : Text
app_stage_state_success = bytes "success"

abbrev pub app_stage_state_running : Text
app_stage_state_running = bytes "running"

abbrev pub app_stage_state_failed : Text
app_stage_state_failed = bytes "failed"

abbrev ratio : ℕ → ℕ → Text
ratio a b = decimal a ++ bytes "/" ++ decimal b ++ bytes " tasks "

unfoldable pub aggregate_of : Tally → Text × Text
aggregate_of t =
    if eqb t.names 0
    then (app_stage_state_success, [])
    else if ltb 0 t.failed
    then (
      app_stage_state_failed,
      ratio t.failed t.names ++ bytes "failed (first: " ++ t.failed_name ++ bytes ")",
    )
    else if ltb 0 t.running || ltb 0 t.pending
    then (app_stage_state_running, ratio (t.names - t.pending) t.names ++ bytes "running")
    else (app_stage_state_success, ratio t.names t.names ++ bytes "done")

unfoldable pub on_startup_aggregate : Map Text ExecutorStatus → List Task → Text × Text
unfolding tally aggregate_of
on_startup_aggregate statuses tasks = aggregate_of (tally statuses tasks empty_tally)
