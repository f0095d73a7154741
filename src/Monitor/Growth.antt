-- ===== src/Monitor/Growth.antt =====
-- What one application of a configuration, and what is recorded of it, sends and keeps,
-- fx-runtime/src/definitions/monitor.rs.
use mathlib.Core.Option
use fx.Management.{add_function}
use fx.Prelude.{
  Bool-cases, string_eq, ℕ, Bool, true, false, ◌&&◌, Option, none, some, List, [], ◌∷◌, ◌++◌,
  String, Result, ok, err, Option-cases, is_some, ◌≡◌, refl, subst, inl, inr, arith, and_then, leb,
  if◌then◌else◌, ◌+◌,
}
use fx.Prelude.Dict.{lookup, lookup-insert}
use fx.Config.{listed, FunctionConfig}
use fx.Monitor.{
  cron_of, DeployMessage, CronTrigger, Environment, Monitor, Message, deploy, remove_from_workers,
  schedule_add, Applied, ApplyConfigError, cron_task_shutdown, compiler_error,
  function_code_not_found, function_code_failed_to_read, apply_config, module_code, code_step,
  compile_step, send_step, schedule_step, collect_env, cron_triggers, deploy_message,
}
use fx.Monitor.Directory.{Pass, record_applied}

-- Nothing in the list tells the workers to remove a function, and the ids of the deployments in it
-- increase, from `lo` on and below `hi`.
unfoldable pub grows : {M S : Type 0} → ℕ → List (Message M S) → ℕ → Bool
grows lo [] hi = leb lo hi
grows lo (remove_from_workers f ∷ ms) hi = false
grows lo (deploy d ∷ ms) hi = leb lo d.deployment_id && grows (d.deployment_id + 1) ms hi
grows lo (schedule_add f ts ∷ ms) hi = grows lo ms hi

grows-widen :
    {M S : Type 0} (i lo hi : ℕ) (ms : List (Message M S))
    → leb i lo ≡ true
    → grows lo ms hi ≡ true
    → grows i ms hi ≡ true
unfolding grows
grows-widen i lo hi [] p q = ground arith
grows-widen i lo hi (deploy d ∷ ms) p q = ground arith
grows-widen i lo hi (schedule_add f ts ∷ ms) p q = grows-widen i lo hi ms p q
grows-widen i lo hi (remove_from_workers f ∷ ms) p q = absurd (ground arith)

pub grows-++ :
    {M S : Type 0} (lo mid hi : ℕ) (xs ys : List (Message M S))
    → grows lo xs mid ≡ true
    → grows mid ys hi ≡ true
    → grows lo (xs ++ ys) hi ≡ true
unfolding grows
grows-++ lo mid hi [] ys p q = grows-widen lo mid hi ys p q
grows-++ lo mid hi (deploy d ∷ xs) ys p q =
    let rest = grows-++ (d.deployment_id + 1) mid hi xs ys (ground arith) q in ground arith
grows-++ lo mid hi (schedule_add f ts ∷ xs) ys p q = grows-++ lo mid hi xs ys p q
grows-++ lo mid hi (remove_from_workers f ∷ xs) ys p q = absurd (ground arith)

-- Every function deployed in `a` is deployed in `b`.
abbrev pub Keeps : Monitor → Monitor → Type 0
Keeps a b =
    (g : String)
    → is_some (lookup g a.deployed_state) ≡ true
    → is_some (lookup g b.deployed_state) ≡ true

-- What applying a configuration leaves of the record of deployments, and what it sends.
pub record IsApplied {M S : Type 0} (m : Monitor) (a : Applied M S) : Type 0 where
  pub state_kept : a.monitor.deployed_state ≡ m.deployed_state
  pub growing : grows m.deployment_id_counter a.messages a.monitor.deployment_id_counter ≡ true

-- What a pass does to the record of deployments, and what it sends.
pub record IsGrowth {M S : Type 0} (m m' : Monitor) (sent : List (Message M S)) : Type 0 where
  pub keeps : Keeps m m'
  pub growing : grows m.deployment_id_counter sent m'.deployment_id_counter ≡ true

pub mapped :
    {A B : Type 0} (f : A → B) (o : Option A) {b : B}
    → Option.map f o ≡ some b
    → (a : A) × (o ≡ some a) × (f a ≡ b)
mapped f none h = absurd (ground arith)
mapped f (some a) h = (a, refl, ground arith)

pub chained :
    {A B : Type 0} (f : A → Option B) (o : Option A) {b : B}
    → and_then o f ≡ some b
    → (a : A) × (o ≡ some a) × (f a ≡ some b)
chained f none h = absurd (ground arith)
chained f (some a) h = (a, refl, h)

if_none :
    {A : Type 0} (b : Bool) (o : Option A) {a : A} → (if b then o else none) ≡ some a → o ≡ some a
if_none true o h = h
if_none false o h = absurd (ground arith)

module _ {M S : Type 0} (w : Environment M S) where
  schedule_step-IsApplied :
      (m : Monitor) (f : String) (c : FunctionConfig) (d : DeployMessage M)
      (ts : List (CronTrigger S)) (n : ℕ)
      → d.deployment_id ≡ n
      → m.deployment_id_counter ≡ n + 1
      → IsApplied (record m { deployment_id_counter = n }) (schedule_step w m f c d ts)
  unfolding schedule_step grows
  schedule_step-IsApplied m f c d ts n p q = elim (Bool-cases w.cron_runs) [
    | inl k ↦ record { state_kept = ground arith; growing = ground arith }
    | inr k ↦ record { state_kept = ground arith; growing = ground arith }
  ]

  send_step-IsApplied :
      (m : Monitor) (f : String) (n : ℕ) (c : FunctionConfig) (compiled : M) (a : Applied M S)
      → m.deployment_id_counter ≡ n + 1
      → send_step w m f n c compiled ≡ some a
      → IsApplied (record m { deployment_id_counter = n }) a
  unfolding send_step deploy_message
  send_step-IsApplied m f n c compiled a q h =
      let (env, p, k) =
        chained
          (λ e.
            if w.workers_run
            then Option.map (schedule_step w m f c (deploy_message w f n c compiled e))
                (cron_triggers w f (cron_of c.triggers))
            else none)
          (collect_env w [] (listed c.env)) h in
      let k' : Option.map (schedule_step w m f c (deploy_message w f n c compiled env))
            (cron_triggers w f (cron_of c.triggers))
          ≡ some a =
        if_none w.workers_run _ k in
      let (ts, r, l) =
        mapped (schedule_step w m f c (deploy_message w f n c compiled env))
          (cron_triggers w f (cron_of c.triggers)) k' in
      subst (IsApplied (record m { deployment_id_counter = n })) l
        (schedule_step-IsApplied m f c (deploy_message w f n c compiled env) ts n refl q)

  compile_step-IsApplied :
      (m : Monitor) (f : String) (c : FunctionConfig) (code : _) (a : Applied M S)
      → compile_step w m f c code ≡ some a
      → IsApplied m a
  unfolding compile_step grows
  compile_step-IsApplied m f c code a h = elim (Option-cases (w.compile code)) [
    | inl p ↦ record { state_kept = ground arith; growing = ground arith }
    | inr (compiled, p) ↦
        send_step-IsApplied (record m { deployment_id_counter = m.deployment_id_counter + 1 }) f
          m.deployment_id_counter c compiled a refl (ground arith)
  ]

  code_step-IsApplied :
      (m : Monitor) (f : String) (c : FunctionConfig) (code : _) (a : Applied M S)
      → code_step w m f c code ≡ some a
      → IsApplied m a
  unfolding code_step grows
  code_step-IsApplied m f c (err e) a h = record {
    state_kept = ground arith;
    growing = ground arith;
  }
  code_step-IsApplied m f c (ok code) a h = compile_step-IsApplied m f c code a h

  pub apply_config-IsApplied :
      (m : Monitor) (f : String) (c : FunctionConfig) (a : Applied M S)
      → apply_config w m f c ≡ some a
      → IsApplied m a
  unfolding apply_config
  apply_config-IsApplied m f c a h =
      let (code, p, k) =
        chained (code_step w (record m { runtime_state = add_function m.runtime_state f }) f c)
          (module_code w f c.code) h in
      let r =
        code_step-IsApplied (record m { runtime_state = add_function m.runtime_state f }) f c code a
          k in
      record { state_kept = r.state_kept; growing = r.growing }

pub record_applied-IsGrowth :
    {M S : Type 0} (m : Monitor) (f : String) (c : FunctionConfig) (a : Applied M S)
    (r : Result (Unit {0}) ApplyConfigError)
    → IsApplied m a
    → IsGrowth m
        (record_applied f c a.monitor a.messages r).monitor
        (record_applied f c a.monitor a.messages r).messages
unfolding record_applied
record_applied-IsGrowth m f c a (ok t) p = record {
  keeps = λ g k. ground (arith, lookup-insert f g c a.monitor.deployed_state, p.state_kept);
  growing = p.growing;
}
record_applied-IsGrowth m f c a (err cron_task_shutdown) p = record {
  keeps = λ g k. ground (arith, p.state_kept);
  growing = p.growing;
}
record_applied-IsGrowth m f c a (err compiler_error) p = record {
  keeps = λ g k. ground (arith, p.state_kept);
  growing = p.growing;
}
record_applied-IsGrowth m f c a (err function_code_not_found) p = record {
  keeps = λ g k. ground (arith, p.state_kept);
  growing = p.growing;
}
record_applied-IsGrowth m f c a (err function_code_failed_to_read) p = record {
  keeps = λ g k. ground (arith, p.state_kept);
  growing = p.growing;
}

-- Nothing has happened yet.
none_yet : {M S : Type 0} (m : Monitor) → IsGrowth {M = M} {S = S} m m []
unfolding grows
none_yet m = record { keeps = λ g k. k; growing = ground arith }

pub idle :
    {M S : Type 0} (m : Monitor) (p : Pass M S)
    → (some (record { monitor = m; messages = []; stopped = false })) ≡ some p
    → IsGrowth m p.monitor p.messages
idle {M} {S} m p h =
    subst (λ (q : Pass M S). IsGrowth m q.monitor q.messages)
      {x = record { monitor = m; messages = []; stopped = false }} {y = p} (ground arith)
      (none_yet m)

pub both :
    {M S : Type 0} {m m' m'' : Monitor} {xs ys : List (Message M S)}
    → IsGrowth m m' xs
    → IsGrowth m' m'' ys
    → IsGrowth m m'' (xs ++ ys)
both p q = record {
  keeps = λ g k. q.keeps g (p.keeps g k);
  growing = grows-++ _ _ _ _ _ p.growing q.growing;
}
