-- ===== src/Tasks/Attached.antt =====
-- A task whose process has ended by a signal is not started again.
use innerstack.Prelude.{
  ℕ, ◌≡◌, refl, sym, ◌∙◌, ap, subst, ◌≢◌, true, false, not, ◌&&◌, ◌||◌, List, [], Option, none,
  some, Text, by_if, by_option, text_key, ◌==◌,
}
use innerstack.Prelude.Int.{ℤ, pos, ltb_ℤ, leb_ℤ, add64}
use innerstack.Prelude.Map.{lookup}
use innerstack.Tasks.{
  Task, ExecutorStatus, Agent, Call, Action, is_done, is_zero, depend_allow, is_due,
  task_async_action, window_of, startup_window, interval_window, cron_window, last_updated,
}
use innerstack.Tasks.Run.{put, signaled, execute, run_task, exits, wait_done, settled}
use innerstack.Tasks.Started.{Event, play}
use innerstack.Tasks.Quiet.{
  starts_of, exits-Untouched, Holds, Untouched-Holds, Fits, Holds-put, run_task-Holds, exits-Holds,
  play-Holds,
}

module _ (name : Text) where
  abbrev IsAttached : ExecutorStatus → Type 0
  IsAttached es = es.cmd ≡ true

  abbrev Attaches : Option ExecutorStatus → Type 0
  Attaches w = (es : ExecutorStatus) → w ≡ some es → es.cmd ≡ true

  some-Attaches : (es : ExecutorStatus) → es.cmd ≡ true → Attaches (some es)
  some-Attaches es c es' e =
      let same : es ≡ es' = cc in ap (λ (s : ExecutorStatus). s.cmd) (sym same) ∙ c

  startup_window-IsAttached :
      (tn : ℤ) (es : ExecutorStatus) → es.cmd ≡ true → IsAttached (startup_window tn es)
  unfolding startup_window
  startup_window-IsAttached tn es c =
      by_if IsAttached
        (ltb_ℤ (pos 0) es.exec_window
          && (is_zero es.done_updated && leb_ℤ es.exec_window es.fail_updated))
        _ es (λ t. c) (λ t. c)

  interval_window-IsAttached :
      (seconds tn : ℤ) (es : ExecutorStatus)
      → es.cmd ≡ true
      → IsAttached (interval_window seconds tn es)
  unfolding interval_window
  interval_window-IsAttached seconds tn es c =
      by_if IsAttached (leb_ℤ (add64 (last_updated es) seconds) tn) _ es (λ t. c) (λ t. c)

  cron_window-IsAttached :
      (next : Option ℤ) (es : ExecutorStatus) → es.cmd ≡ true → IsAttached (cron_window next es)
  unfolding cron_window
  cron_window-IsAttached next es c =
      by_if IsAttached (is_zero es.exec_window || leb_ℤ es.exec_window (last_updated es)) _ es
        (λ t. by_option IsAttached next es _ (λ n. c) (λ u n. c)) (λ t. c)

  window_of-Attaches :
      (task : Task) (tn : ℤ) (next : Option ℤ) (es : ExecutorStatus)
      → es.cmd ≡ true
      → Attaches (window_of task tn next es)
  unfolding window_of
  window_of-Attaches task tn next es c =
      by_if Attaches task.on_startup (some (startup_window tn es)) _
        (λ e. some-Attaches _ (startup_window-IsAttached tn es c))
        (λ e.
          by_if Attaches (ltb_ℤ (pos 0) task.interval_seconds)
            (some (interval_window task.interval_seconds tn es)) _
            (λ i. some-Attaches _ (interval_window-IsAttached task.interval_seconds tn es c))
            (λ i.
              by_if Attaches (not (task.cron == [])) (some (cron_window next es)) none
                (λ k. some-Attaches _ (cron_window-IsAttached next es c)) (λ k es' q. absurd cc)))

  record Passes (a : Action) : Type 0 where
    quiet : a.starts ≡ false
    no_error : a.error ≡ none
    attached : a.status.cmd ≡ true

  async-Passes :
      (task : Task) (call : Call) (es : ExecutorStatus)
      → es.cmd ≡ true
      → Passes (task_async_action task call es)
  unfolding task_async_action
  async-Passes task call es c =
      let idle : Passes (record { status = es; starts = false; error = none }) = record {
        quiet = refl;
        no_error = refl;
        attached = c;
      } in
      by_if Passes (is_done es) _ _ (λ d. idle)
        (λ d.
          by_if Passes es.cmd _ _
            (λ e.
              by_if Passes (ltb_ℤ (add64 es.updated (pos 60)) call.action_now) _ _
                (λ u. record { quiet = refl; no_error = refl; attached = c }) (λ u. idle))
            (λ e. absurd (let q = c in cc)))

  settled-IsAttached : (call : Call) (a : Action) → Passes a → IsAttached (settled call a)
  unfolding settled
  settled-IsAttached call a p =
      by_option IsAttached a.error a.status _ (λ n. p.attached)
        (λ msg e. absurd (let q = p.no_error in cc))

  execute-IsAttached :
      (n : ℕ) (task : Task) (tn : ℤ) (call : Call) (es : ExecutorStatus) (agent : Agent)
      → task.name ≡ name
      → es.cmd ≡ true
      → starts_of name agent.started ≡ n
      → Holds name IsAttached n (execute task tn call es agent)
  unfolding execute
  execute-IsAttached n task tn call es agent same c k =
      let ready = put task.name es agent in
      let a = task_async_action task call es in
      let p = async-Passes task call es c in
      let place =
        λ (s : ExecutorStatus) (u : Agent) (q : IsAttached s) (r : starts_of name u.started ≡ n).
          subst (λ t. Holds name IsAttached n (put t s u)) (sym same)
            (Holds-put name IsAttached n s u q r) in
      by_if (Holds name IsAttached n) (not (is_due tn es)) ready _ (λ e. place es agent c k)
        (λ due.
          by_if (Holds name IsAttached n) (not (depend_allow ready.statuses task.depends_on)) ready
            _ (λ e. place es agent c k)
            (λ allowed.
              by_if (Holds name IsAttached n) a.starts _ _
                (λ starts. absurd (let q = p.quiet in cc))
                (λ e. place (settled call a) ready (settled-IsAttached call a p) k)))

  own-IsAttached :
      (n : ℕ) (tn : ℤ) (call : Call) (task : Task) (agent : Agent)
      → task.name ≡ name
      → Holds name IsAttached n agent
      → Holds name IsAttached n (run_task tn call task agent)
  own-IsAttached n tn call task agent same h =
      run_task-Holds name IsAttached n tn call task agent h.status same h.known h
        (subst (λ k. Holds name IsAttached n (put k h.status agent)) (sym same)
          (Holds-put name IsAttached n h.status agent h.kind h.count))
        (λ es' w.
          execute-IsAttached n task tn call es' agent same
            (window_of-Attaches task tn call.cron_next h.status h.kind es' w) h.count)

  -- Once the process of a task has ended by a signal, the task is not started again, whatever calls of
  -- `Run` follow and whatever other processes end: the ended process stays attached to it.
  pub play_signaled :
      (events : List Event) (agent : Agent) (es : ExecutorStatus) (now : ℤ) (buf : Text)
      → lookup name agent.statuses ≡ some es
      → es.cmd ≡ true
      → Fits name (λ t. Unit) (λ other. other ≢ name) events
      → starts_of name (play events (exits name now buf signaled agent)).started
        ≡ starts_of name agent.started
  unfolding wait_done
  play_signaled events agent es now buf k c f =
      let n = starts_of name agent.started in
      let kept : IsAttached (wait_done now buf signaled es) =
        by_if IsAttached (not es.cmd) es es (λ e. c) (λ e. c) in
      let start = exits-Holds name IsAttached n now buf signaled agent es k kept refl in
      let h =
        play-Holds name IsAttached (λ t. Unit) (λ other. other ≢ name) n
          (λ tn call task u same t h. own-IsAttached n tn call task u same h)
          (λ other now' buf' exit u ne h.
            Untouched-Holds name IsAttached n u (exits other now' buf' exit u)
              (exits-Untouched name other now' buf' exit u ne) h)
          events (exits name now buf signaled agent) f start in
      h.count
