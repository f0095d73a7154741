-- ===== src/Function/Tests.antt =====
-- The theorems on function calls at concrete polls and requests.
use fx.Prelude.{
  ℕ, true, false, none, some, List, [], ◌∷◌, ◌++◌, Result, ok, err, Poll, pending, ready, ◌≡◌, ◌↔◌,
  refl,
}
use fx.Function.{
  InvokeError, FunctionResponsePollError, BackgroundTaskPollError, instantiation_error,
}
use fx.Function.Requests.{Deployment, Answers, handle_request, TaskPoll, poll_tasks}
use fx.Function.Requests.Recovery.{second_request, tasks_conserved}

abbrev crashing_polls : List (Poll (Poll (Result ℕ FunctionResponsePollError)))
crashing_polls =
    pending ∷ ready pending ∷ ready (ready (err FunctionResponsePollError.crashed)) ∷ []

abbrev ending_polls : List (Poll (Result (Poll (Unit {0})) BackgroundTaskPollError))
ending_polls = ready (ok pending) ∷ ready (ok (ready tt)) ∷ []

abbrev healthy : Deployment
healthy = record {
  instance_ = record { number = 1; has_panicked = false; tasks_background = 10 ∷ [] };
}

abbrev crashes : Answers ℕ
crashes = record {
  instantiated = none;
  lock_acquired = true;
  invoked = ok 4;
  spawned_by_invoke = 11 ∷ [];
  response = err FunctionResponsePollError.crashed;
  spawned_by_polls = 12 ∷ [];
}

abbrev replaced : Answers ℕ
replaced = record crashes { instantiated = some 2; response = ok 200 }

abbrev traps : Answers ℕ
traps = record crashes { invoked = err InvokeError.crashed }

-- A task of an instance that is gone, and one of this instance, which panics.
abbrev tasks : List TaskPoll
tasks =
    record { number = 7; outcome = ready (err BackgroundTaskPollError.crashed) }
    ∷ record { number = 1; outcome = ready (err BackgroundTaskPollError.panicked) }
    ∷ []

second_request_example :
    ((handle_request
        (poll_tasks (handle_request healthy traps).deployment tasks)
        replaced).deployment.instance_.number
      ≡ 2)
    × (((handle_request
            (poll_tasks (handle_request healthy traps).deployment tasks)
            replaced).result
          ≡ err instantiation_error)
        ↔ ((true ≡ true) × (replaced.instantiated ≡ none)))
second_request_example = second_request healthy traps replaced tasks refl refl

tasks_conserved_example :
    (handle_request healthy crashes).started_tasks
      ++ (handle_request healthy crashes).deployment.instance_.tasks_background
    ≡ 10 ∷ 11 ∷ 12 ∷ []
tasks_conserved_example = tasks_conserved healthy crashes refl refl
