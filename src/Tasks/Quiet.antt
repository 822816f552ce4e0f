-- ===== src/Tasks/Quiet.antt =====
-- When a task is not started again, whatever `Run` meets.
use innerstack.Prelude.{
  ℕ, ◌+◌, ◌≡◌, refl, sym, ◌∙◌, ap, subst, ◌≢◌, false, not, List, [], ◌∷◌, some, Text, arith, All,
  inl, inr, Bool-cases, by_if, by_option, text_eq_iff, text_key, ◌==◌, if◌then◌else◌,
}
use innerstack.Prelude.Int.{ℤ}
use innerstack.Prelude.Map.{Map, lookup, lookup-insert_self, lookup-insert_ne}
use innerstack.Tasks.{
  Task, ExecutorStatus, Start, Agent, Call, depend_allow, is_due, task_async_action, status_of,
  window_of,
}
use innerstack.Tasks.Run.{put, Exit, execute, run_task, run, exits, wait_done, settled}
use innerstack.Tasks.Started.{Event, runs, ends, play}

-- How often a process of a task was started.
abbrev pub starts_of : Text → List Start → ℕ
starts_of name [] = 0
starts_of name (s ∷ rest) = let n = starts_of name rest in if s.task.name == name then n + 1 else n

module _ (name : Text) where
  -- Nothing of the task has changed from one agent to another.
  abbrev pub Untouched : Agent → Agent → Type 0
  Untouched agent u =
      (lookup name u.statuses ≡ lookup name agent.statuses)
      × (starts_of name u.started ≡ starts_of name agent.started)

  pub put-Untouched :
      (other : Text) (es : ExecutorStatus) (agent u : Agent)
      → other ≢ name
      → Untouched agent u
      → Untouched agent (put other es u)
  put-Untouched other es agent u ne h = (lookup-insert_ne other name es u.statuses ne ∙ h.0, h.1)

  pub execute-Untouched :
      (task : Task) (tn : ℤ) (call : Call) (es : ExecutorStatus) (agent : Agent)
      → task.name ≢ name
      → Untouched agent (execute task tn call es agent)
  unfolding execute
  execute-Untouched task tn call es agent ne =
      let ready = put task.name es agent in
      let r = put-Untouched task.name es agent agent ne (refl, refl) in
      let a = task_async_action task call es in
      let b = put-Untouched task.name (settled call a) agent ready ne r in
      by_if (Untouched agent) (not (is_due tn es)) ready _ (λ e. r)
        (λ due.
          by_if (Untouched agent) (not (depend_allow ready.statuses task.depends_on)) ready _
            (λ e. r)
            (λ allowed.
              by_if (Untouched agent) a.starts _ _
                (λ starts. (
                  b.0,
                  let f : (task.name == name) ≡ false =
                        ground (arith, ne, text_eq_iff task.name name) in
                      rw f b.1,
                ))
                (λ e. b)))

  pub run_task-Untouched :
      (tn : ℤ) (call : Call) (task : Task) (agent : Agent)
      → task.name ≢ name
      → Untouched agent (run_task tn call task agent)
  unfolding run_task
  run_task-Untouched tn call task agent ne =
      let es = status_of task tn call.first_seen agent.statuses in
      by_if (Untouched agent) task.on_shutdown agent _ (λ e. (refl, refl))
        (λ off.
          by_option (Untouched agent) (window_of task tn call.cron_next es) (put task.name es agent)
            _ (λ n. put-Untouched task.name es agent agent ne (refl, refl))
            (λ es' e. execute-Untouched task tn call es' agent ne))

  pub exits-Untouched :
      (other : Text) (now : ℤ) (buf : Text) (exit : Exit) (agent : Agent)
      → other ≢ name
      → Untouched agent (exits other now buf exit agent)
  unfolding exits
  exits-Untouched other now buf exit agent ne =
      by_option (Untouched agent) (lookup other agent.statuses) agent _ (λ n. (refl, refl))
        (λ es e. put-Untouched other (wait_done now buf exit es) agent agent ne (refl, refl))

  -- The task has a status of some kind, and was started so often.
  pub record Holds (P : ExecutorStatus → Type 0) (n : ℕ) (agent : Agent) : Type 0 where
    pub status : ExecutorStatus
    pub known : lookup name agent.statuses ≡ some status
    pub kind : P status
    pub count : starts_of name agent.started ≡ n

  pub Untouched-Holds :
      (P : ExecutorStatus → Type 0) (n : ℕ) (agent u : Agent)
      → Untouched agent u
      → Holds P n agent
      → Holds P n u
  Untouched-Holds P n agent u t h = record {
    status = h.status;
    known = t.0 ∙ h.known;
    kind = h.kind;
    count = t.1 ∙ h.count;
  }

  -- A series of events whose tasks and ends are of some kind.
  abbrev pub Fits : (Task → Type 0) → (Text → Type 0) → List Event → Type 0
  Fits Good Ends [] = Unit
  Fits Good Ends (runs tn calls tasks ∷ rest) =
      All (λ t. t.name ≡ name → Good t) tasks × Fits Good Ends rest
  Fits Good Ends (ends other now buf exit ∷ rest) = Ends other × Fits Good Ends rest

  module _ (P : ExecutorStatus → Type 0) (Good : Task → Type 0) (Ends : Text → Type 0) (n : ℕ)
      (own : (tn : ℤ) (call : Call) (task : Task) (agent : Agent)
        → task.name ≡ name
        → Good task
        → Holds P n agent
        → Holds P n (run_task tn call task agent))
      (end : (other : Text) (now : ℤ) (buf : Text) (exit : Exit) (agent : Agent)
        → Ends other
        → Holds P n agent
        → Holds P n (exits other now buf exit agent)) where
    run-Holds :
        (tn : ℤ) (calls : ℕ → Call) (tasks : List Task) (agent : Agent)
        → All (λ t. t.name ≡ name → Good t) tasks
        → Holds P n agent
        → Holds P n (run tn calls tasks agent)
    unfolding run
    run-Holds tn calls [] agent g h = h
    run-Holds tn calls (task ∷ rest) agent g h =
        let u = run_task tn (calls 0) task agent in
        run-Holds tn (λ k. calls (k + 1)) rest u g.1
          (elim (Bool-cases (task.name == name)) [
            | inl e ↦
                let same = (text_eq_iff task.name name).0 e in
                own tn (calls 0) task agent same (g.0 same) h
            | inr e ↦
                let ne : task.name ≢ name = λ p. let t = (text_eq_iff task.name name).1 p in cc in
                Untouched-Holds P n agent u (run_task-Untouched tn (calls 0) task agent ne) h
          ])

    pub play-Holds :
        (events : List Event) (agent : Agent)
        → Fits Good Ends events
        → Holds P n agent
        → Holds P n (play events agent)
    unfolding play
    play-Holds [] agent f h = h
    play-Holds (runs tn calls tasks ∷ rest) agent f h =
        play-Holds rest (run tn calls tasks agent) f.1 (run-Holds tn calls tasks agent f.0 h)
    play-Holds (ends other now buf exit ∷ rest) agent f h =
        play-Holds rest (exits other now buf exit agent) f.1 (end other now buf exit agent f.0 h)

  pub Holds-put :
      (P : ExecutorStatus → Type 0) (n : ℕ) (es : ExecutorStatus) (agent : Agent)
      → P es
      → starts_of name agent.started ≡ n
      → Holds P n (put name es agent)
  Holds-put P n es agent p c = record {
    status = es;
    known = lookup-insert_self name es agent.statuses;
    kind = p;
    count = c;
  }

  pub status_of_known :
      (task : Task) (tn now : ℤ) (statuses : Map Text ExecutorStatus) (es : ExecutorStatus)
      → task.name ≡ name
      → lookup name statuses ≡ some es
      → status_of task tn now statuses ≡ es
  unfolding status_of
  status_of_known task tn now statuses es same k =
      let k' : lookup task.name statuses ≡ some es = rw same k in rw (k', status_of) refl

  -- The round of the task itself: its status is known, and so is what the switch makes of it.
  pub run_task-Holds :
      (P : ExecutorStatus → Type 0) (n : ℕ) (tn : ℤ) (call : Call) (task : Task) (agent : Agent)
      (es : ExecutorStatus)
      → task.name ≡ name
      → lookup name agent.statuses ≡ some es
      → Holds P n agent
      → Holds P n (put task.name es agent)
      → ((es' : ExecutorStatus)
          → window_of task tn call.cron_next es ≡ some es'
          → Holds P n (execute task tn call es' agent))
      → Holds P n (run_task tn call task agent)
  unfolding run_task
  run_task-Holds P n tn call task agent es same k h bare f =
      let st = status_of task tn call.first_seen agent.statuses in
      let e = status_of_known task tn call.first_seen agent.statuses es same k in
      by_if (Holds P n) task.on_shutdown agent _ (λ off. h)
        (λ off.
          by_option (Holds P n) (window_of task tn call.cron_next st) (put task.name st agent) _
            (λ w. subst (λ s. Holds P n (put task.name s agent)) (sym e) bare)
            (λ es' w. f es' (ap (window_of task tn call.cron_next) (sym e) ∙ w)))

  -- The end of a process of the task itself.
  pub exits-Holds :
      (P : ExecutorStatus → Type 0) (n : ℕ) (now : ℤ) (buf : Text) (exit : Exit) (agent : Agent)
      (es : ExecutorStatus)
      → lookup name agent.statuses ≡ some es
      → P (wait_done now buf exit es)
      → starts_of name agent.started ≡ n
      → Holds P n (exits name now buf exit agent)
  unfolding exits
  exits-Holds P n now buf exit agent es k p c =
      by_option (Holds P n) (lookup name agent.statuses) agent _ (λ none_found. absurd cc)
        (λ es' e.
          let same : es ≡ es' = cc in
          Holds-put P n (wait_done now buf exit es') agent
            (subst (λ s. P (wait_done now buf exit s)) same p) c)
