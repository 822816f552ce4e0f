-- ===== src/Tasks/Examples.antt =====
-- Two tasks of the start, the second of which depends on the first.
use innerstack.Prelude.{
  ℕ, ◌≡◌, refl, ◌≢◌, ◌↔◌, true, false, List, [], ◌∷◌, none, some, Text, bytes, All, text_eq,
  text_eq_iff, text_key,
}
use innerstack.Prelude.Int.{ℤ, pos, max_ℤ}
use innerstack.Prelude.Map.{lookup, insert}
use innerstack.Tasks.{
  Task, ExecutorStatus, Agent, Call, exec_running, exec_exited, depend_allow, is_done,
}
use innerstack.Tasks.Run.{success, signaled, run, exits}
use innerstack.Tasks.Report.{on_startup_aggregate, app_stage_state_success}
use innerstack.Tasks.Started.{Event, runs, ends, play, IsAllowed, play-All}
use innerstack.Tasks.Quiet.{starts_of}
use innerstack.Tasks.Finished.{play_finished}
use innerstack.Tasks.Attached.{play_signaled}
use innerstack.Tasks.Aggregate.{StartupOk, on_startup_aggregate-success}

abbrev startup_task : Text → List Text → Task
startup_task name deps = record {
  name = name;
  script = bytes "true";
  depends_on = deps;
  on_startup = true;
  on_shutdown = false;
  interval_seconds = pos 0;
  cron = [];
}

abbrev init : Text
init = bytes "init"

abbrev web : Text
web = bytes "web"

abbrev tasks : List Task
tasks = startup_task init [] ∷ startup_task web (init ∷ []) ∷ []

abbrev calls_at : ℤ → ℕ → Call
calls_at t n = record {
  first_seen = t;
  cron_next = none;
  action_now = t;
  start_error = none;
  failed_now = t;
}

abbrev run_at : ℤ → Event
run_at t = runs t (calls_at t) tasks

abbrev empty : Agent
empty = record { statuses = []; started = [] }

-- The first call starts "init"; once that is done, the next starts "web".
abbrev events : List Event
events = run_at (pos 100) ∷ ends init (pos 105) [] success ∷ run_at (pos 110) ∷ []

two_starts : starts_of web (play events empty).started ≡ 1
unfolding play run exits lookup is_done depend_allow text_eq insert max_ℤ
two_starts = refl

play-All_example : All IsAllowed (play events empty).started
play-All_example = play-All events empty tt

abbrev done_init : Agent
done_init = play events empty

abbrev init_status : ExecutorStatus
init_status = record {
  updated = pos 105;
  state = exec_exited;
  exec_window = pos 100;
  done_updated = pos 105;
  fail_updated = pos 0;
  fail_message = [];
  cmd = false;
  output = [];
}

init_known : lookup init done_init.statuses ≡ some init_status
unfolding play run exits lookup is_done depend_allow text_eq insert max_ℤ
init_known = refl

init_done : is_done init_status ≡ true
unfolding is_done
init_done = refl

play_finished_example :
    starts_of init (play (run_at (pos 200) ∷ ends web (pos 205) [] success ∷ []) done_init).started
    ≡ starts_of init done_init.started
play_finished_example =
    play_finished init (run_at (pos 200) ∷ ends web (pos 205) [] success ∷ []) done_init init_status
      init_known refl init_done refl (((λ e. refl), ((λ e. refl), tt)), (tt, tt))

abbrev running_init : Agent
running_init = play (run_at (pos 100) ∷ []) empty

abbrev running_status : ExecutorStatus
running_status = record {
  updated = pos 100;
  state = exec_running;
  exec_window = pos 100;
  done_updated = pos 0;
  fail_updated = pos 0;
  fail_message = [];
  cmd = true;
  output = [];
}

running_known : lookup init running_init.statuses ≡ some running_status
unfolding play run exits lookup is_done depend_allow text_eq insert max_ℤ
running_known = refl

other_name : web ≢ init
unfolding text_eq
other_name e =
    let differ : text_eq web init ≡ false = refl in let t = (text_eq_iff web init).1 e in cc

play_signaled_example :
    starts_of init
      (play
        (run_at (pos 200) ∷ ends web (pos 205) [] success ∷ [])
        (exits init (pos 150) [] signaled running_init)).started
    ≡ starts_of init running_init.started
play_signaled_example =
    play_signaled init (run_at (pos 200) ∷ ends web (pos 205) [] success ∷ []) running_init
      running_status (pos 150) [] running_known refl
      (((λ e. tt), ((λ e. tt), tt)), (other_name, tt))

on_startup_aggregate-success_example :
    ((on_startup_aggregate done_init.statuses tasks).0 ≡ app_stage_state_success)
    ↔ All (StartupOk done_init.statuses) tasks
on_startup_aggregate-success_example = on_startup_aggregate-success done_init.statuses tasks
