-- ===== src/Monitor/Directory.antt =====
-- A pass over the functions directory, `reconcile_definitions` of
-- fx-runtime/src/definitions/monitor.rs. What `WalkDir` and the loader give for the entries is a
-- list of entries; `none` is a panic.
use mathlib.Core.Option
use fx.Prelude.{
  string_eq, Bool, true, false, Option, none, some, List, [], ◌∷◌, ◌++◌, String, Result, ok, err,
  and_then, if◌then◌else◌,
}
use fx.Prelude.Dict.{Dict, lookup, insert}
use fx.Config.{FunctionConfig}
use fx.Config.Same.{same_config}
use fx.Monitor.{
  Environment, Monitor, Message, ApplyConfigError, cron_task_shutdown, compiler_error,
  function_code_not_found, function_code_failed_to_read, apply_config, remove_from_monitor,
}

-- What `WalkDir` and the loading of a file give for one entry of the functions directory. Where the
-- name of a file is not UTF-8, `path_to_function_id` panics.
pub data Entry : Type 0 where
  unreadable not_a_file not_unicode no_function_id fails_to_load : Entry
  definition : String → FunctionConfig → Entry

-- The state after a pass, what was sent, and whether the pass ended early.
pub record Pass (M S : Type 0) : Type 0 where
  pub monitor : Monitor
  pub messages : List (Message M S)
  pub stopped : Bool

-- `prev_state.get(&function_id) == Some(&function_config)`
unfoldable pub is_unchanged : Dict String FunctionConfig → String → FunctionConfig → Bool
unfolding lookup
is_unchanged prev f c = elim (lookup f prev) [ none ↦ false | some d ↦ same_config d c ]

-- A configuration that was applied is recorded; a cron task that is gone ends the pass.
unfoldable pub record_applied :
    {M S : Type 0}
    → String
    → FunctionConfig
    → Monitor
    → List (Message M S)
    → Result (Unit {0}) ApplyConfigError
    → Pass M S
record_applied f c m ms (ok t) = record {
  monitor = record m { deployed_state = insert f c m.deployed_state };
  messages = ms;
  stopped = false;
}
record_applied f c m ms (err cron_task_shutdown) = record {
  monitor = m;
  messages = ms;
  stopped = true;
}
record_applied f c m ms (err compiler_error) = record {
  monitor = m;
  messages = ms;
  stopped = false;
}
record_applied f c m ms (err function_code_not_found) = record {
  monitor = m;
  messages = ms;
  stopped = false;
}
record_applied f c m ms (err function_code_failed_to_read) = record {
  monitor = m;
  messages = ms;
  stopped = false;
}

abbrev pub sent_before : {M S : Type 0} → List (Message M S) → Pass M S → Pass M S
sent_before ms p = record p { messages = ms ++ p.messages }

module _ {M S : Type 0} (w : Environment M S) where
  unfoldable pub visit : Dict String FunctionConfig → Monitor → Entry → Option (Pass M S)
  unfolding apply_config record_applied is_unchanged
  visit prev m (definition f c) =
      if is_unchanged prev f c
      then some (record { monitor = m; messages = []; stopped = false })
      else Option.map (λ a. record_applied f c a.monitor a.messages a.result) (apply_config w m f c)
  visit prev m not_unicode = none
  visit prev m _ = some (record { monitor = m; messages = []; stopped = false })

  unfoldable pub scan : Dict String FunctionConfig → Monitor → List Entry → Option (Pass M S)
  unfolding visit
  scan prev m [] = some (record { monitor = m; messages = []; stopped = false })
  scan prev m (e ∷ es) = elim (visit prev m e) [
    | none ↦ none
    | some p ↦ elim (p.stopped) [
      | true ↦ some p
      | false ↦ Option.map (sent_before p.messages) (scan prev p.monitor es)
    ]
  ]

-- The functions of `prev_state` that are no longer deployed are removed.
unfoldable pub sweep :
    {M S : Type 0}
    → Environment M S
    → Dict String FunctionConfig
    → Monitor
    → Option (Monitor × List (Message M S))
unfolding remove_from_monitor lookup
sweep w [] m = some (m, [])
sweep w ((f, c) ∷ prev) m = elim (lookup f m.deployed_state) [
  | some d ↦ sweep w prev m
  | none ↦
      and_then (remove_from_monitor w m f)
        (λ r. and_then (sweep w prev r.0) (λ rest. some (rest.0, r.1 ++ rest.1)))
]

unfoldable pub finish_pass :
    {M S : Type 0}
    → Environment M S
    → Dict String FunctionConfig
    → Pass M S
    → Option (Monitor × List (Message M S))
unfolding sweep
finish_pass w prev p = elim (p.stopped) [
  | true ↦ some (p.monitor, p.messages)
  | false ↦ Option.map (λ rest. (rest.0, p.messages ++ rest.1)) (sweep w prev p.monitor)
]

unfoldable pub reconcile :
    {M S : Type 0} → Environment M S → Monitor → List Entry → Option (Monitor × List (Message M S))
unfolding scan finish_pass
reconcile w m entries =
    and_then (scan w m.deployed_state m entries) (finish_pass w m.deployed_state)
