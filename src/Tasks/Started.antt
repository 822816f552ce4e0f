-- ===== src/Tasks/Started.antt =====
-- When the processes of tasks are started, over any calls of `Run` and any ends of processes.
use innerstack.Prelude.{
  ℕ, ◌+◌, ◌≡◌, refl, sym, ◌∙◌, true, false, not, List, [], ◌∷◌, some, Text, arith, All, inl, inr,
  Bool-cases, Option-cases, by_if, by_option, text_key,
}
use innerstack.Prelude.Int.{ℤ, pos, ltb_ℤ, add64, ◌≤ℤ◌}
use innerstack.Prelude.Map.{Map, lookup, lookup-insert_self}
use innerstack.Tasks.{
  Task, ExecutorStatus, Start, Agent, Call, Action, is_done, depend_allow, is_due,
  task_async_action, task_cmd, status_of, window_of,
}
use innerstack.Tasks.Run.{put, Exit, execute, run_task, run, exits}

-- What happens to an agent: a call of `Run`, or the end of a process.
pub data Event : Type 0 where
  runs : ℤ → (ℕ → Call) → List Task → Event
  ends : Text → ℤ → Text → Exit → Event

unfoldable pub play : List Event → Agent → Agent
unfolding run exits
play [] agent = agent
play (runs tn calls tasks ∷ rest) agent = play rest (run tn calls tasks agent)
play (ends name now buf exit ∷ rest) agent = play rest (exits name now buf exit agent)

-- The statuses have a task that is done in its window.
abbrev pub DoneIn : Map Text ExecutorStatus → Text → Type 0
DoneIn statuses name =
    (es : ExecutorStatus) × (lookup name statuses ≡ some es) × (es.exec_window ≤ℤ es.done_updated)

-- A process was started as it should be: its task has no other process, was not done in its window,
-- is not one of the shutdown, and all that it depends on is done.
pub record IsAllowed (s : Start) : Type 0 where
  pub status : ExecutorStatus
  pub known : lookup s.task.name s.at ≡ some status
  pub no_process : status.cmd ≡ false
  pub not_done : is_done status ≡ false
  pub not_shutdown : s.task.on_shutdown ≡ false
  pub depends : All (DoneIn s.at) s.task.depends_on

is_done_lem : (es : ExecutorStatus) → is_done es ≡ true → es.exec_window ≤ℤ es.done_updated
unfolding is_done
is_done_lem es h = ground (arith, h)

depend_allow_lem :
    (statuses : Map Text ExecutorStatus) (names : List Text)
    → depend_allow statuses names ≡ true
    → All (DoneIn statuses) names
unfolding depend_allow
depend_allow_lem statuses [] h = tt
depend_allow_lem statuses (name ∷ rest) h = elim (Option-cases (lookup name statuses)) [
  | inl e ↦ let q : depend_allow statuses (name ∷ rest) ≡ false = rw (e, depend_allow) refl in cc
  | inr (es, e) ↦ elim (Bool-cases (is_done es)) [
    | inr f ↦
        let q : depend_allow statuses (name ∷ rest) ≡ false = rw (e, f, depend_allow) refl in cc
    | inl t ↦
        let q : depend_allow statuses (name ∷ rest) ≡ depend_allow statuses rest =
          rw (e, t, depend_allow) refl in
        ((es, e, is_done_lem es t), depend_allow_lem statuses rest (sym q ∙ h))
  ]
]

task_async_action_starts :
    (task : Task) (call : Call) (es : ExecutorStatus)
    → (task_async_action task call es).starts ≡ true
    → (es.cmd ≡ false) × (is_done es ≡ false)
unfolding task_async_action task_cmd
task_async_action_starts task call es h = elim (Bool-cases (is_done es)) [
  | inl d ↦ let q : (task_async_action task call es).starts ≡ false = rw d refl in cc
  | inr d ↦ elim (Bool-cases es.cmd) [
    | inl c ↦
        let q : (task_async_action task call es).starts ≡ false =
          rw (d, c)
            (by_if (λ (a : Action). a.starts ≡ false)
              (ltb_ℤ (add64 es.updated (pos 60)) call.action_now) _ _ (λ e. refl) (λ e. refl)) in
        cc
    | inr c ↦ (c, d)
  ]
]

abbrev AllAllowed : Agent → Type 0
AllAllowed agent = All IsAllowed agent.started

execute-AllAllowed :
    (task : Task) (tn : ℤ) (call : Call) (es : ExecutorStatus) (agent : Agent)
    → task.on_shutdown ≡ false
    → AllAllowed agent
    → AllAllowed (execute task tn call es agent)
unfolding execute
execute-AllAllowed task tn call es agent off h =
    let ready = put task.name es agent in
    let a = task_async_action task call es in
    by_if AllAllowed (not (is_due tn es)) ready _ (λ e. h)
      (λ due.
        by_if AllAllowed (not (depend_allow ready.statuses task.depends_on)) ready _ (λ e. h)
          (λ allowed.
            by_if AllAllowed a.starts _ _
              (λ starts.
                let (idle, unfinished) = task_async_action_starts task call es starts in
                (
                  record {
                    status = es;
                    known = lookup-insert_self task.name es agent.statuses;
                    no_process = idle;
                    not_done = unfinished;
                    not_shutdown = off;
                    depends =
                        depend_allow_lem ready.statuses task.depends_on (ground (arith, allowed));
                  },
                  h,
                ))
              (λ e. h)))

run_task-AllAllowed :
    (tn : ℤ) (call : Call) (task : Task) (agent : Agent)
    → AllAllowed agent
    → AllAllowed (run_task tn call task agent)
unfolding run_task
run_task-AllAllowed tn call task agent h =
    let es = status_of task tn call.first_seen agent.statuses in
    by_if AllAllowed task.on_shutdown agent _ (λ e. h)
      (λ off.
        by_option AllAllowed (window_of task tn call.cron_next es) (put task.name es agent) _
          (λ n. h) (λ es' e. execute-AllAllowed task tn call es' agent off h))

run-AllAllowed :
    (tn : ℤ) (calls : ℕ → Call) (tasks : List Task) (agent : Agent)
    → AllAllowed agent
    → AllAllowed (run tn calls tasks agent)
unfolding run
run-AllAllowed tn calls [] agent h = h
run-AllAllowed tn calls (task ∷ rest) agent h =
    run-AllAllowed tn (λ n. calls (n + 1)) rest (run_task tn (calls 0) task agent)
      (run_task-AllAllowed tn (calls 0) task agent h)

exits-AllAllowed :
    (name : Text) (now : ℤ) (buf : Text) (exit : Exit) (agent : Agent)
    → AllAllowed agent
    → AllAllowed (exits name now buf exit agent)
unfolding exits
exits-AllAllowed name now buf exit agent h =
    by_option AllAllowed (lookup name agent.statuses) agent _ (λ n. h) (λ es e. h)

-- Over any calls of `Run` with any tasks, at any times, and any ends of processes, every process that
-- was started found all that its task depends on done in its window, and no other process of the task;
-- a task that is done in its window, or is for the shutdown, is not started.
pub play-All :
    (events : List Event) (agent : Agent)
    → All IsAllowed agent.started
    → All IsAllowed (play events agent).started
unfolding play
play-All [] agent h = h
play-All (runs tn calls tasks ∷ rest) agent h =
    play-All rest (run tn calls tasks agent) (run-AllAllowed tn calls tasks agent h)
play-All (ends name now buf exit ∷ rest) agent h =
    play-All rest (exits name now buf exit agent) (exits-AllAllowed name now buf exit agent h)
