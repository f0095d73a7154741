-- ===== src/Management.antt =====
-- What the management thread shows of functions and cron tasks,
-- fx-runtime/src/tasks/management/runtime_state.rs. Instants are numbers; a function's id is its
-- text. The `Rc<RefCell<..>>`s are the one state that all handles share.
pub mod Listing
mod Tests
use fx.Prelude.{
  string_eq, pair_eq, ℕ, Bool, true, false, not, ◌||◌, Option, none, some, List, [], ◌∷◌, ◌++◌,
  String, ◌==◌, any, retain, if◌then◌else◌,
}
use fx.Prelude.Dict.{Dict, lookup, insert}

pub record CronTaskInfo : Type 0 where
  pub name : String
  pub function_id : String
  pub schedule : String

pub record RuntimeState : Type 0 where
  pub functions : List String
  pub cron_tasks : List CronTaskInfo
  pub cron_last_runs : Dict (String × String) ℕ
  pub cron_running : List (String × String)

unfoldable pub new : RuntimeState
new = record { functions = []; cron_tasks = []; cron_last_runs = []; cron_running = [] }

unfoldable pub add_function : RuntimeState → String → RuntimeState
add_function s f = record s { functions = retain (λ g. not (g == f)) s.functions ++ f ∷ [] }

unfoldable pub remove_function : RuntimeState → String → RuntimeState
remove_function s f = record s {
  functions = retain (λ g. not (g == f)) s.functions;
  cron_tasks = retain (λ t. not (t.function_id == f)) s.cron_tasks;
}

unfoldable pub set_cron_tasks : RuntimeState → String → List CronTaskInfo → RuntimeState
set_cron_tasks s f tasks = record s {
  cron_tasks = retain (λ t. not (t.function_id == f)) s.cron_tasks ++ tasks;
}

-- The keys are pairs of a function's id and a task's name.
unfoldable pub record_cron_run : RuntimeState → String → String → ℕ → RuntimeState
record_cron_run s name f run_at = record s {
  cron_last_runs = insert (f, name) run_at s.cron_last_runs;
  cron_running = retain (λ k. not (k == (f, name))) s.cron_running;
}

unfoldable pub cron_last_run : RuntimeState → String → String → Option ℕ
cron_last_run s name f = lookup (f, name) s.cron_last_runs

unfoldable pub is_cron_running : RuntimeState → String → String → Bool
is_cron_running s name f = any (λ k. k == (f, name)) s.cron_running

-- Inserting into the set.
unfoldable pub mark_cron_running : RuntimeState → String → String → RuntimeState
unfolding is_cron_running
mark_cron_running s name f =
    if is_cron_running s name f then s else record s { cron_running = (f, name) ∷ s.cron_running }
