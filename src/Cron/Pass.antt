-- ===== src/Cron/Pass.antt =====
-- What a pass of the cron task starts, fx-runtime/src/tasks/cron.rs.
use fx.Prelude.{
  string_eq, ℕ, ◌+◌, Bool, true, false, not, ◌&&◌, none, some, List, [], ◌∷◌, ◌++◌, String, ◌==◌,
  ==_iff, ◌≡◌, refl, arith, Bool-cases, inl, inr, ◌||◌, ok, All, ◌≤◌,
}
use fx.Cron.{
  CronTask, Schedules, Started, PassResult, is_running, Decision, skips, waits, starts, decide,
  apply_decision, turn, turns, run_tasks,
}

-- Whether a pass reads the task as due at the instant: it never ran, or its next run is not later.
unfoldable pub is_due : Decision → Bool
is_due (starts d) = true
is_due skips = false
is_due (waits n) = false

-- When a task is due at an instant.
pub data IsDue {S : Type 0} (w : Schedules S) (t : CronTask S) (now : ℕ) : Type 0 where
  never_ran : w.prev_run_time t.task_id ≡ ok none → IsDue w t now
  has_come :
      (prev next : ℕ)
      → w.prev_run_time t.task_id ≡ ok (some prev)
      → w.after t.schedule prev ≡ some next
      → next ≤ now
      → IsDue w t now

-- The ids of the pushed futures.
abbrev pub started_ids : {S : Type 0} → List (Started S) → List String
started_ids [] = []
started_ids (s ∷ ss) = s.task.task_id ∷ started_ids ss

module _ {S : Type 0} (w : Schedules S) where
  next_run-decide :
      (p : PassResult S) (t : CronTask S) (now : ℕ) (d : Decision)
      → p.next_run ≡ none
      → (apply_decision w t now p d).next_run ≡ none
  next_run-decide p t now skips h = h
  next_run-decide p t now (waits n) h = ground arith
  next_run-decide p t now (starts d) h = h

  next_run-turns :
      (clock : ℕ → ℕ) (i : ℕ) (p : PassResult S) (ts : List (CronTask S))
      → p.next_run ≡ none
      → (turns w clock i p ts).next_run ≡ none
  unfolding turns turn
  next_run-turns clock i p [] h = h
  next_run-turns clock i p (t ∷ ts) h =
      next_run-turns clock (i + 1) (turn w p t (clock i)) ts
        (ground (arith, next_run-decide p t (clock i) (decide w t (clock i)) h))

  -- A pass never reports a next run, whatever the tasks' schedules are, so that the cron task always
  -- sleeps for its longest pause.
  pub no_next_run :
      (clock : ℕ → ℕ) (running : List String) (tasks : List (CronTask S))
      → (run_tasks w clock running tasks).next_run ≡ none
  unfolding run_tasks
  no_next_run clock running tasks = next_run-turns clock 0 _ tasks refl

any-snoc :
    (x id : String) (xs : List String)
    → is_running id (xs ++ x ∷ []) ≡ (is_running id xs || (x == id))
any-snoc x id [] = ground arith
any-snoc x id (y ∷ xs) = ground (arith, any-snoc x id xs)

-- No id stands twice.
unfoldable pub distinct : List String → Bool
distinct [] = true
distinct (x ∷ xs) = not (is_running x xs) && distinct xs

distinct-snoc :
    (x : String) (xs : List String)
    → is_running x xs ≡ false
    → distinct xs ≡ true
    → distinct (xs ++ x ∷ []) ≡ true
unfolding distinct
distinct-snoc x [] p q = refl
distinct-snoc x (y ∷ xs) p q =
    ground (arith, any-snoc x y xs, distinct-snoc x xs, ==_iff x y, ==_iff y x)

ids-snoc :
    {S : Type 0} (s : Started S) (ss : List (Started S))
    → started_ids (ss ++ s ∷ []) ≡ started_ids ss ++ s.task.task_id ∷ []
ids-snoc s [] = refl
ids-snoc s (x ∷ ss) = ground (arith, ids-snoc s ss)

-- What a pass started, against the ids that were running before it: the futures have distinct ids,
-- none of which was running, and the running ids are the two together.
pub record IsPass {S : Type 0} (before : List String) (p : PassResult S) : Type 0 where
  pub together :
      (id : String)
      → is_running id p.running ≡ (is_running id before || is_running id (started_ids p.started))
  pub apart :
      (id : String) → is_running id (started_ids p.started) ≡ true → is_running id before ≡ false
  pub once : distinct (started_ids p.started) ≡ true

module _ {S : Type 0} (w : Schedules S) where
  decision-IsPass :
      (before : List String) (p : PassResult S) (t : CronTask S) (now : ℕ) (d : Decision)
      → is_running t.task_id p.running ≡ false
      → IsPass before p
      → IsPass before (apply_decision w t now p d)
  decision-IsPass before p t now skips n h = h
  decision-IsPass before p t now (waits k) n h = record {
    together = h.together;
    apart = h.apart;
    once = h.once;
  }
  decision-IsPass before p t now (starts delay) n h =
      let s : Started S = record { task = t; now = now; delay = delay } in
      let e = ids-snoc s p.started in
      record {
        together = λ id.
            rw e (ground (arith, h.together id, any-snoc t.task_id id (started_ids p.started)));
        apart = λ id k. ground (
          arith,
          e,
          h.together id,
          h.apart id,
          k,
          n,
          ==_iff t.task_id id,
          any-snoc t.task_id id (started_ids p.started),
        );
        once = rw e (
            distinct-snoc t.task_id (started_ids p.started)
              (ground (arith, h.together t.task_id, n)) h.once);
      }

  turns-IsPass :
      (clock : ℕ → ℕ) (i : ℕ) (before : List String) (p : PassResult S) (ts : List (CronTask S))
      → IsPass before p
      → IsPass before (turns w clock i p ts)
  unfolding turns turn
  turns-IsPass clock i before p [] h = h
  turns-IsPass clock i before p (t ∷ ts) h = elim (Bool-cases (is_running t.task_id p.running)) [
    | inl k ↦ rw k (turns-IsPass clock (i + 1) before p ts h)
    | inr k ↦ rw k (
        turns-IsPass clock (i + 1) before _ ts
          (decision-IsPass before p t (clock i) (decide w t (clock i)) k h))
  ]

  -- A pass starts no task that is running and no id twice, even where several tasks share it, and
  -- afterwards the running ids are those from before and those of the futures it started.
  pub run_tasks-IsPass :
      (clock : ℕ → ℕ) (running : List String) (tasks : List (CronTask S))
      → IsPass running (run_tasks w clock running tasks)
  unfolding run_tasks distinct
  run_tasks-IsPass clock running tasks =
      turns-IsPass clock 0 running _ tasks
        (record { together = λ id. ground arith; apart = λ id k. ground arith; once = refl })

  AllDue : PassResult S → Type 0
  AllDue p = All (λ s. IsDue w s.task s.now) p.started
