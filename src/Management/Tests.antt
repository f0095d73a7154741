-- ===== src/Management/Tests.antt =====
-- The listing's theorems at a concrete state.
use fx.Prelude.{string_eq, pair_eq, [], ◌∷◌}
use fx.Management.{RuntimeState}

abbrev listing : RuntimeState
listing = record {
  functions = "a" ∷ "b" ∷ "a" ∷ [];
  cron_tasks = [];
  cron_last_runs = [];
  cron_running = ("a", "tick") ∷ [];
}
