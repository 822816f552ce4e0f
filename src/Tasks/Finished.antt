-- ===== src/Tasks/Finished.antt =====
-- A task of the start that is done stays done, and is not started again.
use innerstack.Prelude.{
  ℕ, ◌≡◌, refl, sym, ap, subst, ◌≢◌, true, false, not, ◌&&◌, List, Option, some, Text, arith, inl,
  inr, Bool-cases, by_if, text_eq_iff, text_key, ◌==◌,
}
use innerstack.Prelude.Int.{ℤ, pos, ltb_ℤ, leb_ℤ}
use innerstack.Prelude.Map.{lookup}
use innerstack.Tasks.{
  Task, ExecutorStatus, Agent, Call, is_done, is_zero, is_due, window_of, startup_window,
}
use innerstack.Tasks.Run.{put, Exit, execute, run_task, exits, wait_done}
use innerstack.Tasks.Started.{Event, play}
use innerstack.Tasks.Quiet.{
  starts_of, exits-Untouched, Holds, Untouched-Holds, Fits, Holds-put, run_task-Holds, exits-Holds,
  play-Holds,
}

module _ (name : Text) where
  -- A task of the start that is done in its window, without a process.
  record Finished (es : ExecutorStatus) : Type 0 where
    idle : es.cmd ≡ false
    done : is_done es ≡ true
    once : ltb_ℤ (pos 0) es.done_updated ≡ true

  startup_window-Finished : (es : ExecutorStatus) (tn : ℤ) → Finished es → startup_window tn es ≡ es
  unfolding startup_window
  startup_window-Finished es tn f =
      let o = f.once in
      let z : is_zero es.done_updated ≡ false = ground (arith, o) in
      by_if (λ u. u ≡ es)
        (ltb_ℤ (pos 0) es.exec_window
          && (is_zero es.done_updated && leb_ℤ es.exec_window es.fail_updated))
        _ _ (λ e. absurd (ground (arith, e, z))) (λ e. refl)

  window_of-Finished :
      (task : Task) (tn : ℤ) (next : Option ℤ) (es : ExecutorStatus)
      → task.on_startup ≡ true
      → Finished es
      → window_of task tn next es ≡ some es
  unfolding window_of
  window_of-Finished task tn next es up f =
      by_if (λ w. w ≡ some es) task.on_startup (some (startup_window tn es)) _
        (λ e. ap some (startup_window-Finished es tn f)) (λ e. absurd (let q = up in cc))

  execute_done :
      (task : Task) (tn : ℤ) (call : Call) (es : ExecutorStatus) (agent : Agent)
      → is_done es ≡ true
      → execute task tn call es agent ≡ put task.name es agent
  unfolding execute is_due
  execute_done task tn call es agent d =
      by_if (λ u. u ≡ put task.name es agent) (not (is_due tn es)) _ _ (λ e. refl)
        (λ e. absurd (ground (arith, d, e)))

  wait_done_idle :
      (now : ℤ) (buf : Text) (exit : Exit) (es : ExecutorStatus)
      → es.cmd ≡ false
      → wait_done now buf exit es ≡ es
  unfolding wait_done
  wait_done_idle now buf exit es c =
      by_if (λ u. u ≡ es) (not es.cmd) es _ (λ e. refl) (λ e. absurd (ground (arith, c, e)))

  end-Finished :
      (n : ℕ) (other : Text) (now : ℤ) (buf : Text) (exit : Exit) (agent : Agent)
      → Holds name Finished n agent
      → Holds name Finished n (exits other now buf exit agent)
  end-Finished n other now buf exit agent h = elim (Bool-cases (other == name)) [
    | inl e ↦
        let same = (text_eq_iff other name).0 e in
        let kept = subst Finished (sym (wait_done_idle now buf exit h.status h.kind.idle)) h.kind in
        subst (λ k. Holds name Finished n (exits k now buf exit agent)) (sym same)
          (exits-Holds name Finished n now buf exit agent h.status h.known kept h.count)
    | inr e ↦
        let ne : other ≢ name = λ p. let t = (text_eq_iff other name).1 p in cc in
        Untouched-Holds name Finished n agent (exits other now buf exit agent)
          (exits-Untouched name other now buf exit agent ne) h
  ]

  own-Finished :
      (n : ℕ) (tn : ℤ) (call : Call) (task : Task) (agent : Agent)
      → task.name ≡ name
      → task.on_startup ≡ true
      → Holds name Finished n agent
      → Holds name Finished n (run_task tn call task agent)
  own-Finished n tn call task agent same up h =
      let kept =
        subst (λ k. Holds name Finished n (put k h.status agent)) (sym same)
          (Holds-put name Finished n h.status agent h.kind h.count) in
      run_task-Holds name Finished n tn call task agent h.status same h.known h kept (λ es' w.
        let e : h.status ≡ es' =
          let q = window_of-Finished task tn call.cron_next h.status up h.kind in cc in
        subst (λ s. Holds name Finished n (execute task tn call s agent)) e
          (subst (Holds name Finished n)
            (sym (execute_done task tn call h.status agent h.kind.done)) kept))

  -- A task of the start that has been done in its window, with no process left, is not started again,
  -- whatever events follow in which it stays a task of the start.
  pub play_finished :
      (events : List Event) (agent : Agent) (es : ExecutorStatus)
      → lookup name agent.statuses ≡ some es
      → es.cmd ≡ false
      → is_done es ≡ true
      → ltb_ℤ (pos 0) es.done_updated ≡ true
      → Fits name (λ t. t.on_startup ≡ true) (λ other. Unit) events
      → starts_of name (play events agent).started ≡ starts_of name agent.started
  play_finished events agent es k c d o f =
      let n = starts_of name agent.started in
      let start : Holds name Finished n agent = record {
        status = es;
        known = k;
        kind = record { idle = c; done = d; once = o };
        count = refl;
      } in
      let h =
        play-Holds name Finished (λ t. t.on_startup ≡ true) (λ other. Unit) n
          (λ tn call task u same up h. own-Finished n tn call task u same up h)
          (λ other now buf exit u t h. end-Finished n other now buf exit u h) events agent f
          start in
      h.count
