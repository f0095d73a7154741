-- ===== src/Cron/Tests.antt =====
-- The cron task's theorems at concrete schedules, tasks and futures.
use fx.Prelude.{
  string_eq, ℕ, ◌+◌, true, false, none, some, List, [], ◌∷◌, String, ok, ◌≡◌, refl, ltb,
  if◌then◌else◌, ◌==◌,
}
use fx.Cron.{CronTask, Schedules, Started, Fate, is_running, run_tasks, run_future}
use fx.Cron.Pass.{IsPass, started_ids, run_tasks-IsPass}
use fx.Cron.Release.{invokes, run_future_releases, early_return_blocks}

-- A schedule is a period; nothing ran before but `later`, at 95.
abbrev schedules : Schedules ℕ
schedules = record {
  after = λ period t. if ltb 0 period then some (t + period) else none;
  prev_run_time = λ id. if id == "later" then ok (some 95) else ok none;
}

abbrev task : String → ℕ → CronTask ℕ
task id period = record {
  name = id;
  task_id = id;
  function_id = "a";
  schedule = period;
  endpoint = none;
  timeout = none;
}

abbrev tasks : List (CronTask ℕ)
tasks = task "now" 10 ∷ task "later" 10 ∷ task "now" 20 ∷ []

run_tasks-IsPass_example :
    IsPass ("other" ∷ []) (run_tasks schedules (λ i. 100) ("other" ∷ []) tasks)
run_tasks-IsPass_example = run_tasks-IsPass schedules (λ i. 100) ("other" ∷ []) tasks

-- The management thread takes the event, and no text is an endpoint.
abbrev fate : Fate
fate = record {
  start_event_taken = true;
  parses = λ s. false;
  is_ok = true;
  run_at = 101;
  returns_at = 102;
}

abbrev started : Started ℕ
started = record { task = task "now" 10; now = 100; delay = none }

run_future_releases_example :
    is_running "now" (run_future schedules fate ("now" ∷ []) started).running ≡ true
unfolding invokes
run_future_releases_example = run_future_releases schedules fate ("now" ∷ []) started "now"

early_return_blocks_example :
    (is_running "now" (
        started_ids
          (run_tasks schedules
            (λ i. 200)
            (run_future schedules fate ("now" ∷ []) started).running
            tasks).started)
      ≡ false)
    × (is_running "now"
          (run_tasks schedules
            (λ i. 200)
            (run_future schedules fate ("now" ∷ []) started).running
            tasks).running
        ≡ true)
unfolding invokes
early_return_blocks_example =
    early_return_blocks schedules fate ("now" ∷ []) started (λ i. 200) tasks refl refl
