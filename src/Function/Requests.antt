-- ===== src/Function/Requests.antt =====
-- One request to a deployment, `RequestHandleFuture` of fx-runtime/src/function/deployment.rs:
-- replacing a panicked instance, the call of the function, and the tasks it left behind.
-- What the function and the wasm engine do is the environment's. The model runs one request at a
-- time, and background tasks are polled between requests; requests that are handled at the same time
-- by one instance are not interleaved.
pub mod Recovery
use native.Mathlib.Omega.{arith}
use fx.Prelude.{
  ℕ, Bool, true, false, not, ◌&&◌, ◌||◌, ◌≡◌, ◌≢◌, ◌↔◌, refl, Option, none, some, List, [], ◌∷◌,
  ◌++◌, Result, ok, err, map_err, ◌⊎◌, inl, inr, if◌then◌else◌, Poll, nat_eq, ◌==◌,
}
use fx.Function.{
  InvokeError, FunctionResponsePollError, BackgroundTaskPollError, HandleRequestError,
  request_error_of_invoke, request_error_of_response, runtime_timeout, instantiation_error,
}
use fx.Function.Polling.{response_is_fatal, background_poll}

-- An instance: `number` tells the instances of a deployment apart.
pub record Instance : Type 0 where
  pub number : ℕ
  pub has_panicked : Bool
  pub tasks_background : List ℕ

pub record Deployment : Type 0 where
  pub instance_ : Instance

-- What the environment does during one request.
pub record Answers (R : Type 0) : Type 0 where
  pub instantiated : Option ℕ  -- a new instance's number, if one can be made
  pub lock_acquired : Bool
  pub invoked : Result ℕ InvokeError
  pub spawned_by_invoke : List ℕ
  pub response : Result R FunctionResponsePollError
  pub spawned_by_polls : List ℕ

pub record Handled (R : Type 0) : Type 0 where
  pub deployment : Deployment
  pub result : Result R HandleRequestError
  pub started_tasks : List ℕ

abbrev pub new_instance : ℕ → Instance
new_instance n = record { number = n; has_panicked = false; tasks_background = [] }

abbrev is_panic : HandleRequestError → Bool
is_panic HandleRequestError.panicked = true
is_panic _ = false

abbrev fatal : {R : Type 0} → Result R FunctionResponsePollError → Bool
fatal (ok r) = false
fatal (err e) = response_is_fatal e

-- `deployment.template.instantiate()`, when the instance has panicked.
unfoldable pub ready_instance : Deployment → Option ℕ → Result Instance HandleRequestError
ready_instance d made =
    if d.instance_.has_panicked
    then elim made [ none ↦ err instantiation_error | some n ↦ ok (new_instance n) ]
    else ok d.instance_

module _ {R : Type 0} where
  -- After the trigger was invoked: the response is polled, and then all background tasks start.
  unfoldable pub poll_response : Instance → Answers R → Handled R
  poll_response i a = record {
    deployment = record {
      instance_ = record {
        number = i.number;
        has_panicked = i.has_panicked || fatal a.response;
        tasks_background = [];
      };
    };
    result = map_err request_error_of_response a.response;
    started_tasks = i.tasks_background ++ a.spawned_by_polls;
  }

  unfoldable pub invoke : Instance → Answers R → Handled R
  unfolding poll_response
  invoke i a =
      let i' = record i { tasks_background = i.tasks_background ++ a.spawned_by_invoke } in
      elim (a.invoked) [
        | ok resource_id ↦ poll_response i' a
        | err e ↦ record {
          deployment = record {
            instance_ = record i' {
              has_panicked = i.has_panicked || is_panic (request_error_of_invoke e);
            };
          };
          result = err (request_error_of_invoke e);
          started_tasks = [];
        }
      ]

  with_instance : Deployment → Answers R → Result Instance HandleRequestError → Handled R
  unfolding invoke
  with_instance d a (err e) = record { deployment = d; result = err e; started_tasks = [] }
  with_instance d a (ok i) = if a.lock_acquired then invoke i a else record {
    deployment = record { instance_ = i };
    result = err runtime_timeout;
    started_tasks = [];
  }

  unfoldable pub handle_request : Deployment → Answers R → Handled R
  unfolding with_instance ready_instance
  handle_request d a = with_instance d a (ready_instance d a.instantiated)

-- One poll of a background task that was started in the instance with the number,
-- `FunctionBackgroundTask::poll`: it marks that instance, if the deployment still uses it.
pub record TaskPoll : Type 0 where
  pub number : ℕ
  pub outcome : Poll (Result (Poll (Unit {0})) BackgroundTaskPollError)

unfoldable pub poll_task : Deployment → TaskPoll → Deployment
unfolding background_poll
poll_task d t = record {
  instance_ = record d.instance_ {
    has_panicked =
        d.instance_.has_panicked
        || d.instance_.number == t.number && (background_poll t.outcome).marks;
  };
}

-- The polls of the tasks between two requests.
unfoldable pub poll_tasks : Deployment → List TaskPoll → Deployment
unfolding poll_task
poll_tasks d [] = d
poll_tasks d (t ∷ ts) = poll_tasks (poll_task d t) ts
