-- ===== src/Cron.antt =====
-- The cron task, fx-runtime/src/tasks/cron.rs: its list of tasks, the set of those that are running,
-- a pass over the tasks, and the future that runs one. Instants are numbers of milliseconds.
-- Schedules (`cron::Schedule`), the clock and the database of last runs are the environment's. The
-- request's id header and the event's `iteration_delay`, which only informs, are left out.
pub mod Pass
pub mod Release
mod Tests
use fx.Prelude.{
  string_eq, ℕ, ◌+◌, ◌-◌, Bool, true, false, not, ◌||◌, Option, none, some, List, [], ◌∷◌, ◌++◌,
  String, Result, ok, err, ◌==◌, if◌then◌else◌, map, any, retain, ltb, unwrap_or,
}
use fx.Monitor.{CronTrigger}

pub record CronTask (S : Type 0) : Type 0 where
  pub name : String
  pub task_id : String
  pub function_id : String
  pub schedule : S
  pub endpoint : Option String
  pub timeout : Option ℕ

pub data CronTaskEvent : Type 0 where
  start : (name function_id : String) → CronTaskEvent
  ran : (name function_id : String) (run_at : ℕ) (delay : Option ℕ) → CronTaskEvent

-- `schedule.after(..).next()`, and `get_prev_run_time` of the cron database.
pub record Schedules (S : Type 0) : Type 0 where
  pub after : S → ℕ → Option ℕ
  pub prev_run_time : String → Result (Option ℕ) (Unit {0})

-- A future that a pass pushed: its task, the pass's `now`, and the delay it computed.
pub record Started (S : Type 0) : Type 0 where
  pub task : CronTask S
  pub now : ℕ
  pub delay : Option ℕ

-- What a pass leaves: the running ids, the futures it pushed, and the next run it found.
pub record PassResult (S : Type 0) : Type 0 where
  pub running : List String
  pub started : List (Started S)
  pub next_run : Option ℕ

abbrev pub is_running : String → List String → Bool
is_running id running = any (λ r. r == id) running

-- `next_run.map(|v| if v < next { v } else { next })`
abbrev pub earlier : Option ℕ → ℕ → Option ℕ
earlier none next = none
earlier (some v) next = some (if ltb v next then v else next)

-- What the pass decides about a task that is not running.
pub data Decision : Type 0 where
  skips : Decision
  waits : ℕ → Decision
  starts : Option ℕ → Decision

unfoldable pub schedule_add :
    {S : Type 0} → List (CronTask S) → String → List (CronTrigger S) → List (CronTask S)
schedule_add tasks f schedule =
    map
      (λ trigger. record {
        name = trigger.name;
        task_id = trigger.id;
        function_id = f;
        schedule = trigger.schedule;
        endpoint = trigger.endpoint;
        timeout = trigger.timeout;
      })
      schedule
    ++ tasks

module _ {S : Type 0} (w : Schedules S) where
  abbrev pub decide_after : ℕ → Option ℕ → Decision
  decide_after now none = skips
  decide_after now (some next) = if ltb now next then waits next else starts (some (now - next))

  abbrev pub decide_at : CronTask S → ℕ → Result (Option ℕ) (Unit {0}) → Decision
  decide_at task now (err e) = skips
  decide_at task now (ok none) = starts none
  decide_at task now (ok (some prev)) = decide_after now (w.after task.schedule prev)

  -- The guards of one turn of the loop.
  unfoldable pub decide : CronTask S → ℕ → Decision
  decide task now = decide_at task now (w.prev_run_time task.task_id)

  abbrev pub apply_decision : CronTask S → ℕ → PassResult S → Decision → PassResult S
  apply_decision task now p skips = p
  apply_decision task now p (waits next) = record p { next_run = earlier p.next_run next }
  apply_decision task now p (starts delay) = record p {
    running = task.task_id ∷ p.running;
    started = p.started ++ record { task = task; now = now; delay = delay } ∷ [];
  }

  unfoldable pub turn : PassResult S → CronTask S → ℕ → PassResult S
  unfolding decide
  turn p task now =
      if is_running task.task_id p.running then p else apply_decision task now p (decide task now)

  -- `clock i` is the instant that the loop's i-th turn reads.
  unfoldable pub turns : (ℕ → ℕ) → ℕ → PassResult S → List (CronTask S) → PassResult S
  unfolding turn
  turns clock i p [] = p
  turns clock i p (task ∷ tasks) = turns clock (i + 1) (turn p task (clock i)) tasks

  unfoldable pub run_tasks : (ℕ → ℕ) → List String → List (CronTask S) → PassResult S
  unfolding turns
  run_tasks clock running tasks =
      turns clock 0 (record { running = running; started = []; next_run = none }) tasks

-- What happens to a future while it waits: whether the management thread takes the start event,
-- whether the endpoint is a valid URI, whether the invocation succeeds in time, and the instants at
-- which the clock is read.
pub record Fate : Type 0 where
  pub start_event_taken : Bool
  pub parses : String → Bool
  pub is_ok : Bool
  pub run_at : ℕ
  pub returns_at : ℕ

-- What a future leaves: the running ids, the events sent, the function invoked at an endpoint, the
-- run time that the database is asked to record, and the instant to run at next.
pub record FutureResult : Type 0 where
  pub running : List String
  pub events : List CronTaskEvent
  pub invoked : Option (String × String)
  pub recorded : Option (String × ℕ)
  pub next : ℕ

module _ {S : Type 0} (w : Schedules S) (fate : Fate) where
  abbrev endpoint_of : CronTask S → String
  endpoint_of task = unwrap_or task.endpoint "/_fx/cron"

  complete_run : List String → Started S → ℕ → FutureResult
  complete_run running s task_next_run = record {
    running = retain (λ r. not (r == s.task.task_id)) running;
    events =
        start s.task.name s.task.function_id
        ∷ ran s.task.name s.task.function_id fate.run_at s.delay
        ∷ [];
    invoked = some (s.task.function_id, endpoint_of s.task);
    recorded = if fate.is_ok then some (s.task.task_id, fate.run_at) else none;
    next = if fate.is_ok then task_next_run else fate.returns_at + 1000;
  }

  start_run : List String → Started S → ℕ → FutureResult
  unfolding complete_run
  start_run running s task_next_run =
      if not fate.start_event_taken
      then record {
        running = running;
        events = [];
        invoked = none;
        recorded = none;
        next = task_next_run;
      }
      else if not (fate.parses (endpoint_of s.task))
      then record {
        running = running;
        events = start s.task.name s.task.function_id ∷ [];
        invoked = none;
        recorded = none;
        next = fate.returns_at + 60000;
      }
      else complete_run running s task_next_run

  unfoldable pub run_future : List String → Started S → FutureResult
  unfolding start_run
  run_future running s = elim (w.after s.task.schedule s.now) [
    | none ↦ record {
      running = running;
      events = [];
      invoked = none;
      recorded = none;
      next = fate.returns_at + 60000;
    }
    | some task_next_run ↦ start_run running s task_next_run
  ]
