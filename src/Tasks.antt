-- ===== src/Tasks.antt =====
-- internal/inagent/task/task.go: the tasks of an app inside its container.
-- `Run` is called again and again; the processes that it starts end in between. The clock, the cron
-- schedules and the starting of a process are the arguments `Call`. A script is ASCII.
pub mod Run
pub mod Report
pub mod Started
pub mod Quiet
pub mod Finished
pub mod Attached
pub mod Aggregate
mod Examples
use innerstack.Prelude.{
  ℕ, suc, ◌+◌, ◌-◌, Bool, true, false, not, ◌&&◌, ◌||◌, List, [], ◌∷◌, ◌++◌, Option, none, some,
  Text, bytes, if◌then◌else◌, ◌==◌, text_key, leb, ltb, eqb, length, number_key,
}
use innerstack.Prelude.Int.{ℤ, pos, negsuc, add64, max_ℤ, ltb_ℤ, leb_ℤ}
use innerstack.Prelude.Map.{Map, insert, lookup}
use innerstack.Decimal.{decimal}

-- inapi.AppSpecTask, as far as the scheduling of tasks reads it.
pub record Task : Type 0 where
  pub name : Text
  pub script : Text
  pub depends_on : List Text
  pub on_startup : Bool
  pub on_shutdown : Bool
  pub interval_seconds : ℤ
  pub cron : Text

-- `cmd` is whether a process is attached.
pub record ExecutorStatus : Type 0 where
  pub updated : ℤ
  pub state : Text
  pub exec_window : ℤ
  pub done_updated : ℤ
  pub fail_updated : ℤ
  pub fail_message : Text
  pub cmd : Bool
  pub output : Text

-- A process that was started: its task, and the statuses at that time.
pub record Start : Type 0 where
  pub task : Task
  pub at : Map Text ExecutorStatus

pub record Agent : Type 0 where
  pub statuses : Map Text ExecutorStatus
  pub started : List Start

-- What one task meets in a call of `Run`: the times that it reads, the next time of its cron schedule
-- if that parses, and the error of starting its process.
pub record Call : Type 0 where
  pub first_seen : ℤ
  pub cron_next : Option ℤ
  pub action_now : ℤ
  pub start_error : Option Text
  pub failed_now : ℤ

abbrev pub min_retry_interval_seconds : ℤ
min_retry_interval_seconds = pos 10

abbrev pub exec_running : Text
exec_running = bytes "running"

abbrev pub exec_exited : Text
exec_exited = bytes "existed"

-- A zero time is one that is not set.
abbrev pub is_zero : ℤ → Bool
is_zero t = leb_ℤ t (pos 0) && leb_ℤ (pos 0) t

abbrev is_blank : ℕ → Bool
is_blank c = c == 32 || (leb 9 c && leb c 13)

-- strings.TrimSpace
unfoldable pub trim_left : Text → Text
trim_left [] = []
trim_left (c ∷ rest) = let later = trim_left rest in if is_blank c then later else c ∷ rest

unfoldable pub trim_right : Text → Text
trim_right [] = []
trim_right (c ∷ rest) =
    let later = trim_right rest in if is_blank c && later == [] then [] else c ∷ later

unfoldable pub trim_space : Text → Text
unfolding trim_left trim_right
trim_space s = trim_right (trim_left s)

unfoldable pub is_done : ExecutorStatus → Bool
is_done es = leb_ℤ es.exec_window es.done_updated

unfoldable pub depend_allow : Map Text ExecutorStatus → List Text → Bool
depend_allow statuses [] = true
depend_allow statuses (name ∷ rest) =
    let later = depend_allow statuses rest in
    elim (lookup name statuses) [
      | none ↦ false
      | some es ↦ if not (is_done es) then false else later
    ]

abbrev fresh : ℤ → ExecutorStatus
fresh now = record {
  updated = now;
  state = [];
  exec_window = pos 0;
  done_updated = pos 0;
  fail_updated = pos 0;
  fail_message = [];
  cmd = false;
  output = [];
}

-- The status of a task, made on its first run.
unfoldable pub status_of : Task → ℤ → ℤ → Map Text ExecutorStatus → ExecutorStatus
status_of task tn now statuses = elim (lookup task.name statuses) [
  | some es ↦ es
  | none ↦
      if task.on_startup || ltb_ℤ (pos 0) task.interval_seconds
      then record (fresh now) { exec_window = tn }
      else fresh now
]

abbrev later_window : ℤ → ExecutorStatus → ExecutorStatus
later_window tn es = record es {
  exec_window = max_ℤ (add64 es.exec_window min_retry_interval_seconds) tn;
}

abbrev pub last_updated : ExecutorStatus → ℤ
last_updated es = max_ℤ es.done_updated es.fail_updated

-- The switch of `Run`: the window of the next execution, or none for a task without a trigger.
unfoldable pub startup_window : ℤ → ExecutorStatus → ExecutorStatus
startup_window tn es =
    if ltb_ℤ (pos 0) es.exec_window
      && (is_zero es.done_updated && leb_ℤ es.exec_window es.fail_updated)
    then later_window tn es
    else es

unfoldable pub interval_window : ℤ → ℤ → ExecutorStatus → ExecutorStatus
interval_window seconds tn es =
    if leb_ℤ (add64 (last_updated es) seconds) tn then later_window tn es else es

unfoldable pub cron_window : Option ℤ → ExecutorStatus → ExecutorStatus
cron_window next es =
    if is_zero es.exec_window || leb_ℤ es.exec_window (last_updated es)
    then elim next [ none ↦ es | some t ↦ record es { exec_window = max_ℤ t (last_updated es) } ]
    else es

unfoldable pub window_of : Task → ℤ → Option ℤ → ExecutorStatus → Option ExecutorStatus
unfolding startup_window interval_window cron_window
window_of task tn next es =
    if task.on_startup
    then some (startup_window tn es)
    else if ltb_ℤ (pos 0) task.interval_seconds
    then some (interval_window task.interval_seconds tn es)
    else if not (task.cron == [])
    then some (cron_window next es)
    else none

-- The window has come, and the task has not been done in it.
unfoldable pub is_due : ℤ → ExecutorStatus → Bool
is_due tn es = not (is_zero es.exec_window || ltb_ℤ tn es.exec_window) && not (is_done es)

-- `taskAsyncAction`, with `taskCmd`: the status, whether a process was started, and the error.
pub record Action : Type 0 where
  pub status : ExecutorStatus
  pub starts : Bool
  pub error : Option Text

unfoldable pub task_cmd : Call → ExecutorStatus → Action
task_cmd call es = elim call.start_error [
  | some e ↦ record { status = record es { cmd = false }; starts = false; error = some e }
  | none ↦ record { status = record es { cmd = true }; starts = true; error = none }
]

unfoldable pub task_async_action : Task → Call → ExecutorStatus → Action
unfolding trim_space task_cmd
task_async_action task call es =
    let idle : Action = record { status = es; starts = false; error = none } in
    if is_done es
    then idle
    else if es.cmd
    then (if ltb_ℤ (add64 es.updated (pos 60)) call.action_now
        then record idle { status = record es { updated = call.action_now } }
        else idle)
    else if trim_space task.script == []
    then idle
    else task_cmd call (record es { state = exec_running; updated = call.action_now })
