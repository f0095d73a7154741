-- ===== src/Function/Requests/Recovery.antt =====
-- How a deployment recovers from a function that panics, fx-runtime/src/function/deployment.rs.
use native.Mathlib.Omega.{arith}
use mathlib.Core.List.{append_assoc, append-nil}
use fx.Prelude.{
  nat_eq, ℕ, Bool, true, false, ◌||◌, ◌&&◌, ◌==◌, ◌≡◌, refl, ap, ◌∙◌, subst, none, List, [], ◌∷◌,
  ◌++◌, Result, ok, err, if◌then◌else◌, unwrap_or, ◌↔◌, any, Poll, pending, ready,
}
use fx.Function.{
  InvokeError, FunctionResponsePollError, BackgroundTaskPollError, HandleRequestError,
  instantiation_error, request_error_of_invoke, request_error_of_response,
}
use fx.Function.Polling.{background_poll}
use fx.Function.Requests.{
  Deployment, Answers, handle_request, fatal, TaskPoll, poll_task, poll_tasks,
}

-- Whether a poll of a background task ends in a panic or a crash of the function.
abbrev pub task_breaks : Poll (Result (Poll (Unit {0})) BackgroundTaskPollError) → Bool
task_breaks (ready (err BackgroundTaskPollError.panicked)) = true
task_breaks (ready (err BackgroundTaskPollError.crashed)) = true
task_breaks (ready (err BackgroundTaskPollError.abi_error)) = false
task_breaks (ready (ok progress)) = false
task_breaks pending = false

-- Whether one of the polls breaks the instance with the number.
abbrev pub broken_by : ℕ → List TaskPoll → Bool
broken_by n ts = any (λ t. n == t.number && task_breaks t.outcome) ts

marks-task_breaks :
    (o : Poll (Result (Poll (Unit {0})) BackgroundTaskPollError))
    → (background_poll o).marks ≡ task_breaks o
unfolding background_poll
marks-task_breaks pending = refl
marks-task_breaks (ready (ok pending)) = refl
marks-task_breaks (ready (ok (ready _))) = refl
marks-task_breaks (ready (err BackgroundTaskPollError.panicked)) = refl
marks-task_breaks (ready (err BackgroundTaskPollError.crashed)) = refl
marks-task_breaks (ready (err BackgroundTaskPollError.abi_error)) = refl

-- The polls of tasks leave the instance, marked if they break it.
after_tasks :
    (d : Deployment) (ts : List TaskPoll)
    → ((poll_tasks d ts).instance_.has_panicked
        ≡ (d.instance_.has_panicked || broken_by d.instance_.number ts))
      × ((poll_tasks d ts).instance_.number ≡ d.instance_.number)
unfolding poll_tasks poll_task
after_tasks d [] = (ground arith, refl)
after_tasks d (t ∷ ts) =
    let rest = after_tasks (poll_task d t) ts in
    (ground (arith, rest.0, marks-task_breaks t.outcome), rest.1)

module _ {R : Type 0} where
  -- Whether the polling of a response ends in a panic or a crash of the function.
  abbrev pub response_breaks : Result R FunctionResponsePollError → Bool
  response_breaks (ok r) = false
  response_breaks (err e) = elim e [
    | FunctionResponsePollError.panicked ↦ true
    | FunctionResponsePollError.crashed ↦ true
    | _ ↦ false
  ]

  -- What the call and the polling of its response mean for the instance that made them.
  abbrev pub wears_out : Answers R → Bool
  wears_out a = elim (a.invoked) [
    | ok resource_id ↦ response_breaks a.response
    | err e ↦ elim e [ InvokeError.panicked ↦ true | _ ↦ false ]
  ]

  fatal-breaks : (r : Result R FunctionResponsePollError) → fatal r ≡ response_breaks r
  fatal-breaks (ok r) = refl
  fatal-breaks (err FunctionResponsePollError.assertion_error) = refl
  fatal-breaks (err FunctionResponsePollError.store_lock_acquire_timeout) = refl
  fatal-breaks (err FunctionResponsePollError.abi_error) = refl
  fatal-breaks (err FunctionResponsePollError.panicked) = refl
  fatal-breaks (err FunctionResponsePollError.crashed) = refl
  fatal-breaks (err FunctionResponsePollError.failed_to_deserialize) = refl
  fatal-breaks (err FunctionResponsePollError.host_resource_not_found) = refl
  fatal-breaks (err FunctionResponsePollError.invalid_status_code) = refl
  fatal-breaks (err FunctionResponsePollError.invalid_headers) = refl

  -- After a request to a healthy instance that gets the instance's lock, the instance is marked
  -- exactly when its call panicked, or its response's polling panicked or crashed.
  marks-wears_out :
      (d : Deployment) (a : Answers R)
      → d.instance_.has_panicked ≡ false
      → a.lock_acquired ≡ true
      → ((handle_request d a).deployment.instance_.has_panicked ≡ wears_out a)
        × ((handle_request d a).deployment.instance_.number ≡ d.instance_.number)
  unfolding handle_request request_error_of_invoke
  marks-wears_out d a healthy locked = ground (arith, fatal-breaks a.response)

  number_after :
      (d : Deployment) (b : Answers R)
      → (handle_request d b).deployment.instance_.number ≡ (
          if d.instance_.has_panicked
          then unwrap_or b.instantiated d.instance_.number
          else d.instance_.number)
  unfolding handle_request
  number_after d b = ground arith

  refused_iff :
      (d : Deployment) (b : Answers R)
      → ((handle_request d b).result ≡ err instantiation_error)
        ↔ ((d.instance_.has_panicked ≡ true) × (b.instantiated ≡ none))
  unfolding handle_request request_error_of_invoke request_error_of_response
  refused_iff d b = ground arith

  -- Two requests to a deployment whose instance is healthy, where the first one gets the instance's
  -- lock, and any polls of background tasks between them: the second one is handled by the same
  -- instance unless the first one's call panicked, the polling of its response panicked or crashed, or
  -- a background task of that instance did. In those cases it is handled by the new instance if one
  -- can be made; it is refused with an instantiation error exactly when a new instance is needed and
  -- cannot be made.
  pub second_request :
      (d : Deployment) (a b : Answers R) (tasks : List TaskPoll)
      → d.instance_.has_panicked ≡ false
      → a.lock_acquired ≡ true
      → let second = handle_request (poll_tasks (handle_request d a).deployment tasks) b in
        let worn = wears_out a || broken_by d.instance_.number tasks in
        (second.deployment.instance_.number
          ≡ (if worn then unwrap_or b.instantiated d.instance_.number else d.instance_.number))
        × ((second.result ≡ err instantiation_error) ↔ ((worn ≡ true) × (b.instantiated ≡ none)))
  second_request d a b tasks healthy locked =
      let first = (handle_request d a).deployment in
      let between = poll_tasks first tasks in
      let (marked, same) = marks-wears_out d a healthy locked in
      let (worn, still) = after_tasks first tasks in
      let number : between.instance_.number ≡ d.instance_.number = still ∙ same in
      let broken : between.instance_.has_panicked
          ≡ (wears_out a || broken_by d.instance_.number tasks) =
        worn
        ∙ ap (λ n. first.instance_.has_panicked || broken_by n tasks) same
        ∙ ap (λ m. m || broken_by d.instance_.number tasks) marked in
      (
        number_after between b
            ∙ ap
                (λ m.
                  if m
                  then unwrap_or b.instantiated between.instance_.number
                  else between.instance_.number)
                broken
            ∙ ap
                (λ n.
                  if wears_out a || broken_by d.instance_.number tasks
                  then unwrap_or b.instantiated n
                  else n)
                number,
        subst
            (λ m.
              ((handle_request between b).result ≡ err instantiation_error)
              ↔ ((m ≡ true) × (b.instantiated ≡ none)))
            broken (refused_iff between b),
      )

  -- A request that is answered with a panic leaves an instance that the next request replaces.
  pub panic_marks :
      (d : Deployment) (a : Answers R)
      → (handle_request d a).result ≡ err HandleRequestError.panicked
      → (handle_request d a).deployment.instance_.has_panicked ≡ true
  unfolding handle_request request_error_of_invoke request_error_of_response
  panic_marks d a e = ground arith

  -- A trigger that crashes, by any trap but a panic, is answered with a crash, and its instance
  -- stays in use: a later request is handled by the same instance.
  pub invoke_crash_keeps :
      (d : Deployment) (a b : Answers R)
      → d.instance_.has_panicked ≡ false
      → a.lock_acquired ≡ true
      → a.invoked ≡ err InvokeError.crashed
      → let first = handle_request d a in
        (first.result ≡ err HandleRequestError.crashed)
        × ((handle_request first.deployment b).deployment.instance_.number ≡ d.instance_.number)
  unfolding handle_request request_error_of_invoke
  invoke_crash_keeps d a b healthy locked crash = ground arith

  -- The tasks that an instance has been given by one request's call and polls.
  abbrev pub given : Answers R → List ℕ
  given a = elim (a.invoked) [
    | ok resource_id ↦ a.spawned_by_invoke ++ a.spawned_by_polls
    | err e ↦ a.spawned_by_invoke
  ]

  -- While the instance is healthy and its lock is acquired, no background task is lost and none
  -- starts twice: those that a request starts, followed by those it leaves waiting, are those that
  -- were waiting followed by those that the request's call and polls spawned.
  pub tasks_conserved :
      (d : Deployment) (a : Answers R)
      → d.instance_.has_panicked ≡ false
      → a.lock_acquired ≡ true
      → let after = handle_request d a in
        after.started_tasks ++ after.deployment.instance_.tasks_background
        ≡ d.instance_.tasks_background ++ given a
  unfolding handle_request
  tasks_conserved d a healthy locked = ground (
    arith,
    append_assoc d.instance_.tasks_background a.spawned_by_invoke a.spawned_by_polls,
    append-nil ((d.instance_.tasks_background ++ a.spawned_by_invoke) ++ a.spawned_by_polls),
  )
