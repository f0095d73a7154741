-- ===== src/Cron/Release.antt =====
-- When the future that runs a task lets the task run again, fx-runtime/src/tasks/cron.rs.
use fx.Prelude.{
  string_eq, ℕ, Bool, true, false, not, ◌&&◌, none, some, List, [], ◌∷◌, String, ◌==◌, ==_iff,
  if◌then◌else◌, retain, ◌≡◌, arith, Option-cases, inl, inr, is_some, unwrap_or,
}
use fx.Cron.Pass.{started_ids, run_tasks-IsPass}
use fx.Cron.{
  CronTask, Schedules, Started, is_running, Fate, run_future, start_run, complete_run, run_tasks,
}

any-retain :
    (x id : String) (xs : List String)
    → is_running id (retain (λ r. not (r == x)) xs) ≡ (not (id == x) && is_running id xs)
any-retain x id [] = ground arith
any-retain x id (y ∷ xs) = ground (arith, any-retain x id xs, ==_iff y x, ==_iff y id, ==_iff id x)

module _ {S : Type 0} (w : Schedules S) (fate : Fate) where
  -- Whether the future gets as far as to invoke the function.
  unfoldable pub invokes : Started S → Bool
  invokes s =
      is_some (w.after s.task.schedule s.now)
      && (fate.start_event_taken && fate.parses (unwrap_or s.task.endpoint "/_fx/cron"))

  -- A future that ends lets exactly its own task run again if it invoked the function, and leaves
  -- the running ids as they are, its own task's included, if it returned early.
  pub run_future_releases :
      (running : List String) (s : Started S) (id : String)
      → is_running id (run_future w fate running s).running ≡ (
          if invokes s
          then not (id == s.task.task_id) && is_running id running
          else is_running id running)
  unfolding run_future start_run complete_run invokes
  run_future_releases running s id = elim (Option-cases (w.after s.task.schedule s.now)) [
    | inl e ↦ ground arith
    | inr (n, e) ↦ ground (arith, any-retain s.task.task_id id running)
  ]

  -- A run time is recorded exactly when the function was invoked and the invocation succeeded, and
  -- then it is the task's own.
  pub run_future_records :
      (running : List String) (s : Started S)
      → (run_future w fate running s).recorded
        ≡ (if invokes s && fate.is_ok then some (s.task.task_id, fate.run_at) else none)
  unfolding run_future start_run complete_run invokes
  run_future_records running s = elim (Option-cases (w.after s.task.schedule s.now)) [
    | inl e ↦ ground arith
    | inr (n, e) ↦ ground arith
  ]

  -- A running task whose future returned before it invoked the function is not started by the next
  -- pass, whatever the clock and the tasks then are, and is running after it as well.
  pub early_return_blocks :
      (running : List String) (s : Started S) (clock : ℕ → ℕ) (tasks : List (CronTask S))
      → is_running s.task.task_id running ≡ true
      → invokes s ≡ false
      → (is_running s.task.task_id
            (started_ids (run_tasks w clock (run_future w fate running s).running tasks).started)
          ≡ false)
        × (is_running s.task.task_id
              (run_tasks w clock (run_future w fate running s).running tasks).running
            ≡ true)
  early_return_blocks running s clock tasks h e =
      let left = (run_future w fate running s).running in
      let p = run_tasks-IsPass w clock left tasks in
      let k = run_future_releases running s s.task.task_id in
      let id = s.task.task_id in
      (ground (arith, p.apart id, k, h, e), ground (arith, p.together id, k, h, e))
