-- ===== src/Function/Polling.antt =====
-- The futures that poll a function, fx-runtime/src/resources/future.rs.
-- `poll` of the boxed inner future is the environment's: each time it is `pending` or ready with
-- the outcome of one call into the function.
use native.Mathlib.Omega.{arith}
use fx.Prelude.{
  ℕ, ◌+◌, map, Bool, true, false, ◌||◌, ◌≡◌, refl, Option, none, some, List, [], ◌∷◌, Result, ok,
  err, Poll, pending, ready, if◌then◌else◌,
}
use fx.Function.{BackgroundTaskPollError, FunctionResponsePollError}

-- What one poll of such a future does: whether it marks the instance as panicked, whether it starts
-- a new call into the function, and what it answers.
pub record PollStep (A : Type 0) : Type 0 where
  pub marks : Bool
  pub restarts : Bool
  pub answer : Poll A

abbrev pub background_is_fatal : BackgroundTaskPollError → Bool
background_is_fatal BackgroundTaskPollError.abi_error = false
background_is_fatal BackgroundTaskPollError.panicked = true
background_is_fatal BackgroundTaskPollError.crashed = true

-- `FunctionBackgroundTask::poll`
unfoldable pub background_poll :
    Poll (Result (Poll (Unit {0})) BackgroundTaskPollError)
    → PollStep (Result (Unit {0}) BackgroundTaskPollError)
background_poll pending = record { marks = false; restarts = false; answer = pending }
background_poll (ready (err e)) = record {
  marks = background_is_fatal e;
  restarts = false;
  answer = ready (err e);
}
background_poll (ready (ok pending)) = record { marks = false; restarts = true; answer = pending }
background_poll (ready (ok (ready _))) = record {
  marks = false;
  restarts = false;
  answer = ready (ok tt);
}

abbrev pub response_is_fatal : FunctionResponsePollError → Bool
response_is_fatal FunctionResponsePollError.panicked = true
response_is_fatal FunctionResponsePollError.crashed = true
response_is_fatal _ = false

module _ {R : Type 0} where
  -- `FunctionResponseFuture::poll`
  unfoldable pub response_poll :
      Poll (Poll (Result R FunctionResponsePollError))
      → PollStep (Result R FunctionResponsePollError)
  response_poll pending = record { marks = false; restarts = false; answer = pending }
  response_poll (ready pending) = record { marks = false; restarts = true; answer = pending }
  response_poll (ready (ready (err e))) = record {
    marks = response_is_fatal e;
    restarts = false;
    answer = ready (err e);
  }
  response_poll (ready (ready (ok v))) = record {
    marks = false;
    restarts = false;
    answer = ready (ok v);
  }

-- A future is polled until it answers: whether the instance was marked, how many calls were started
-- again, and the answer, if the polls given reach one.
pub record Driven (A : Type 0) : Type 0 where
  pub marked : Bool
  pub restarted : ℕ
  pub result : Option A

unfoldable pub drive : {I A : Type 0} → (I → PollStep A) → List I → Driven A
drive f [] = record { marked = false; restarted = 0; result = none }
drive f (i ∷ is) =
    let s = f i in
    let later = drive f is in
    elim (s.answer) [
      | ready a ↦ record { marked = s.marks; restarted = 0; result = some a }
      | pending ↦ record {
        marked = s.marks || later.marked;
        restarted = (if s.restarts then 1 else 0) + later.restarted;
        result = later.result;
      }
    ]

-- Which answers mean that the instance can no longer be trusted.
abbrev pub ends_fatally : {R : Type 0} → Option (Result R FunctionResponsePollError) → Bool
ends_fatally (some (err e)) = response_is_fatal e
ends_fatally _ = false

abbrev pub task_ends_fatally : Option (Result (Unit {0}) BackgroundTaskPollError) → Bool
task_ends_fatally (some (err e)) = background_is_fatal e
task_ends_fatally _ = false

-- The outcome that ends the polling, and the pending calls before it.
abbrev pub first_outcome : {R : Type 0} → List (Poll (Poll R)) → Option R
first_outcome [] = none
first_outcome (ready (ready r) ∷ is) = some r
first_outcome (_ ∷ is) = first_outcome is

abbrev pub calls_pending : {R : Type 0} → List (Poll (Poll R)) → ℕ
calls_pending [] = 0
calls_pending (pending ∷ is) = calls_pending is
calls_pending (ready pending ∷ is) = 1 + calls_pending is
calls_pending (ready (ready r) ∷ is) = 0

-- However the inner future behaves, the future of a function's response answers with the outcome of
-- the first call that is not pending, starts a new call after each pending one, and marks the
-- instance exactly when that outcome is a panic or a crash.
pub response_drive :
    {R : Type 0} (polls : List (Poll (Poll (Result R FunctionResponsePollError))))
    → let d = drive response_poll polls in
      (d.result ≡ first_outcome polls)
      × (d.restarted ≡ calls_pending polls)
      × (d.marked ≡ ends_fatally (first_outcome polls))
unfolding drive response_poll
response_drive [] = (refl, refl, refl)
response_drive (pending ∷ is) = ground (arith, response_drive is)
response_drive (ready pending ∷ is) = ground (arith, response_drive is)
response_drive (ready (ready (ok v)) ∷ is) = (refl, refl, refl)
response_drive (ready (ready (err e)) ∷ is) = (refl, refl, refl)

-- The calls of a background task, with the errors on the outside as the source has them.
abbrev pub flipped :
    Poll (Result (Poll (Unit {0})) BackgroundTaskPollError)
    → Poll (Poll (Result (Unit {0}) BackgroundTaskPollError))
flipped pending = pending
flipped (ready (err e)) = ready (ready (err e))
flipped (ready (ok pending)) = ready pending
flipped (ready (ok (ready u))) = ready (ready (ok tt))

-- A background task behaves the same way: it ends with the first call that is not pending, starts a
-- new call after each pending one, and marks the instance exactly when it ends in a panic or a
-- crash.
pub background_drive :
    (polls : List (Poll (Result (Poll (Unit {0})) BackgroundTaskPollError)))
    → let d = drive background_poll polls in
      let calls = map flipped polls in
      (d.result ≡ first_outcome calls)
      × (d.restarted ≡ calls_pending calls)
      × (d.marked ≡ task_ends_fatally (first_outcome calls))
unfolding drive background_poll
background_drive [] = (refl, refl, refl)
background_drive (pending ∷ is) = ground (arith, background_drive is)
background_drive (ready (ok pending) ∷ is) = ground (arith, background_drive is)
background_drive (ready (ok (ready u)) ∷ is) = (refl, refl, refl)
background_drive (ready (err e) ∷ is) = (refl, refl, refl)
