-- ===== src/Tasks/Run.antt =====
-- `Run` of internal/inagent/task/task.go, and the end of the processes that it starts.
use innerstack.Prelude.{
  ℕ, ◌+◌, false, not, List, [], ◌∷◌, ◌++◌, none, some, Text, bytes, if◌then◌else◌, ◌==◌, text_key,
  number_key,
}
use innerstack.Prelude.Int.{ℤ, pos, max_ℤ}
use innerstack.Prelude.Map.{insert, lookup}
use innerstack.Tasks.{
  Task, ExecutorStatus, Agent, Call, exec_exited, trim_space, depend_allow, status_of, window_of,
  is_due, Action, task_async_action,
}

-- A failed start counts as a failed execution.
unfoldable pub settled : Call → Action → ExecutorStatus
settled call a = elim a.error [
  | none ↦ a.status
  | some e ↦ record a.status {
    done_updated = pos 0;
    fail_updated = max_ℤ call.failed_now a.status.exec_window;
  }
]

abbrev pub put : Text → ExecutorStatus → Agent → Agent
put name es agent = record agent { statuses = insert name es agent.statuses }

-- The round of one task whose window is known.
unfoldable pub execute : Task → ℤ → Call → ExecutorStatus → Agent → Agent
unfolding task_async_action settled is_due
execute task tn call es agent =
    let ready = put task.name es agent in
    let a = task_async_action task call es in
    let after = put task.name (settled call a) ready in
    if not (is_due tn es)
    then ready
    else if not (depend_allow ready.statuses task.depends_on)
    then ready
    else if a.starts
    then record after { started = record { task = task; at = ready.statuses } ∷ agent.started }
    else after

unfoldable pub run_task : ℤ → Call → Task → Agent → Agent
unfolding execute status_of window_of
run_task tn call task agent =
    if task.on_shutdown
    then agent
    else let es = status_of task tn call.first_seen agent.statuses in
      elim (window_of task tn call.cron_next es) [
        | none ↦ put task.name es agent
        | some es' ↦ execute task tn call es' agent
      ]

-- `Run`, at the time `tn`; a call for each task by its position.
unfoldable pub run : ℤ → (ℕ → Call) → List Task → Agent → Agent
unfolding run_task
run tn calls [] agent = agent
run tn calls (task ∷ rest) agent =
    run tn (λ n. calls (n + 1)) rest (run_task tn (calls 0) task agent)

-- How a process ends: with success, with the text of another exit status, or by a signal. The Go
-- function `Exited` is false of the last.
pub data Exit : Type 0 where
  success : Exit
  failure : Text → Exit
  signaled : Exit

abbrev fail_text : Text → Text → Text
fail_text status output =
    if output == []
    then bytes "process error " ++ status
    else bytes "process error " ++ status ++ bytes ", output: " ++ output

-- The goroutine of `taskCmd`, when `Wait` returns, at the time `now`, with the captured output.
unfoldable pub wait_done : ℤ → Text → Exit → ExecutorStatus → ExecutorStatus
unfolding trim_space
wait_done now buf exit es = if not es.cmd then es else elim exit [
  | success ↦ record es {
    state = exec_exited;
    done_updated = max_ℤ now es.exec_window;
    fail_updated = pos 0;
    cmd = false;
    updated = now;
  }
  | failure status ↦ record es {
    state = exec_exited;
    output = trim_space buf;
    fail_message = fail_text status (trim_space buf);
    done_updated = pos 0;
    fail_updated = max_ℤ now es.exec_window;
    cmd = false;
    updated = now;
  }
  | signaled ↦ es
]

unfoldable pub exits : Text → ℤ → Text → Exit → Agent → Agent
unfolding wait_done
exits name now buf exit agent = elim (lookup name agent.statuses) [
  | none ↦ agent
  | some es ↦ put name (wait_done now buf exit es) agent
]
