-- ===== src/Monitor/Delivery.antt =====
-- What the definitions monitor sends and a worker handles, fx-runtime/src/definitions/monitor.rs and
-- fx-runtime/src/tasks/worker/task.rs.
use fx.Prelude.{
  string_eq, nat_eq, ℕ, ◌+◌, true, false, Option, none, some, List, [], ◌∷◌, ◌++◌, String, Result,
  ok, err, map, filter_map, ◌≡◌, refl, arith, leb, is_some, Option-cases, inl, inr, subst, ==_iff,
}
use fx.Prelude.Dict.{lookup, lookup-insert}
use fx.Worker.{
  WorkerWorld, WorkerMessage, FunctionDeployMessage, function_deploy, remove_function,
  DeploymentInitError, new_world, run, worker_handle_message, find_deployment, deployed, install,
}
use fx.Worker.Routing.{AllFresh, route, routed_can_run}
use fx.Monitor.{
  Environment, Monitor, Message, DeployMessage, deploy, remove_from_workers, schedule_add,
}
use fx.Monitor.Directory.{Entry, reconcile}
use fx.Monitor.Growth.{grows, grows-++}
use fx.Monitor.Reconcile.{reconcile-IsGrowth}

module _ {M D : Type 0} (init : DeployMessage M → Result D DeploymentInitError) where
  -- The message as the worker handles it; `init` is what making the deployment comes to there.
  abbrev pub worker_deploy : DeployMessage M → FunctionDeployMessage D
  worker_deploy d = record {
    function_id = d.function_id;
    deployment_id = d.deployment_id;
    deployment = init d;
    http_listeners = map (λ h. record { host = h }) d.http_listeners;
  }

  -- Schedules go to the cron task.
  abbrev pub to_worker : {S : Type 0} → Message M S → Option (WorkerMessage D)
  to_worker (deploy d) = some (function_deploy (worker_deploy d))
  to_worker (remove_from_workers f) = some (remove_function f false)
  to_worker (schedule_add f ts) = none

  -- No deployment has an id from `n` on.
  abbrev IsBelow : ℕ → WorkerWorld D → Type 0
  IsBelow n w = (id : ℕ) → leb n id ≡ true → lookup id w.function_deployments ≡ none

  module _ (lower : String → String) where
    deployed-IsBelow :
        (n : ℕ) (w : WorkerWorld D) (d : DeployMessage M) (r : Result D DeploymentInitError)
        → leb n d.deployment_id ≡ true
        → IsBelow n w
        → IsBelow (d.deployment_id + 1) (deployed lower w (worker_deploy d) r).0
    unfolding deployed install
    deployed-IsBelow n w d (ok x) p h id q = ground (
      arith,
      h id,
      lookup-insert d.deployment_id id x w.function_deployments,
      ==_iff d.deployment_id id,
    )
    deployed-IsBelow n w d (err e) p h id q = ground (arith, h id)

    grows-AllFresh :
        {S : Type 0} (lo hi : ℕ) (w : WorkerWorld D) (ms : List (Message M S))
        → grows lo ms hi ≡ true
        → IsBelow lo w
        → AllFresh lower w (filter_map to_worker ms)
    unfolding grows worker_handle_message
    grows-AllFresh lo hi w [] p h = tt
    grows-AllFresh lo hi w (deploy d ∷ ms) p h = (
      h d.deployment_id (ground arith),
      grows-AllFresh (d.deployment_id + 1) hi _ ms (ground arith)
          (deployed-IsBelow lo w d (init d) (ground arith) h),
    )
    grows-AllFresh lo hi w (schedule_add f ts ∷ ms) p h = grows-AllFresh lo hi w ms p h
    grows-AllFresh lo hi w (remove_from_workers f ∷ ms) p h = absurd (ground arith)

-- Passes one after the other, each in its own environment and over the directory as it then is.
unfoldable pub passes :
    {M S : Type 0}
    → Monitor
    → List (Environment M S × List Entry)
    → Option (Monitor × List (Message M S))
unfolding reconcile
passes m [] = some (m, [])
passes m ((w, entries) ∷ rest) = elim (reconcile w m entries) [
  | none ↦ none
  | some r ↦ elim (passes r.0 rest) [ none ↦ none | some s ↦ some (s.0, r.1 ++ s.1) ]
]

passes-grows :
    {M S : Type 0} (m : Monitor) (ps : List (Environment M S × List Entry))
    (r : Monitor × List (Message M S))
    → passes m ps ≡ some r
    → grows m.deployment_id_counter r.1 r.0.deployment_id_counter ≡ true
unfolding passes grows
passes-grows m [] r h = ground arith
passes-grows {M} {S} m ((w, entries) ∷ rest) r h = elim (Option-cases (reconcile w m entries)) [
  | inl p ↦ absurd (ground arith)
  | inr (a, p) ↦ elim (Option-cases (passes a.0 rest)) [
    | inl q ↦ absurd (ground arith)
    | inr (b, q) ↦
        let one = (reconcile-IsGrowth w m entries a p).growing in
        let more = passes-grows a.0 rest b q in
        subst
          (λ (x : Monitor × List (Message M S)).
            grows m.deployment_id_counter x.1 x.0.deployment_id_counter ≡ true)
          {x = (b.0, a.1 ++ b.1)} {y = r} (ground arith)
          (grows-++ m.deployment_id_counter a.0.deployment_id_counter b.0.deployment_id_counter a.1
            b.1 one more)
  ]
]

-- After any number of passes of the definitions monitor that do not panic, over whatever directories
-- and whichever compilations and initializations succeed, a new worker that has handled what was
-- sent can run every function that it routes a request to.
pub reconciled_can_run :
    {M S D : Type 0} (init : DeployMessage M → Result D DeploymentInitError)
    (lower : String → String) (m : Monitor) (ps : List (Environment M S × List Entry))
    (r : Monitor × List (Message M S)) (host : Option String) (f : String)
    → passes m ps ≡ some r
    → route lower (run lower new_world (filter_map (to_worker init) r.1)) host ≡ some f
    → is_some (find_deployment (run lower new_world (filter_map (to_worker init) r.1)) f) ≡ true
unfolding new_world lookup
reconciled_can_run init lower m ps r host f h e =
    let fresh =
      grows-AllFresh init lower m.deployment_id_counter r.0.deployment_id_counter new_world r.1
        (passes-grows m ps r h) (λ id p. refl) in
    routed_can_run lower (filter_map (to_worker init) r.1) host f fresh e
