-- ===== src/Monitor/Total.antt =====
-- When a pass over the functions directory does not panic, fx-runtime/src/definitions/monitor.rs.
use fx.Prelude.{
  Result-cases, subst, string_eq, ℕ, ◌+◌, true, Option, none, some, List, [], ◌∷◌, String, ok, err,
  All, is_some, ◌≡◌, ◌≢◌, refl, arith, Option-cases, inl, inr,
}
use fx.Prelude.Dict.{Dict, insert}
use fx.Config.{
  FunctionConfig, FunctionCodeConfig, path, inline, EnvVariableConfig, EnvValueSource, value, file,
  FunctionCronTriggerConfig, listed,
}
use fx.Management.{add_function}
use fx.Monitor.{
  Environment, Monitor, missing, other_failure, module_code, collect_env, cron_triggers,
  apply_config, code_step, compile_step, send_step, cron_of,
}
use fx.Monitor.Bindings.{source-cases}
use fx.Monitor.Reconcile.{scan-IsGrowth, sweep_none, finish}
use fx.Monitor.Directory.{
  Entry, unreadable, not_a_file, not_unicode, no_function_id, fails_to_load, definition, visit,
  scan, reconcile,
}

module _ {M S : Type 0} (w : Environment M S) where
  -- A configured path to the code can be read.
  abbrev pub IsReadable : Option FunctionCodeConfig → Type 0
  IsReadable (some (path p)) = (e : _) → w.read p ≢ err e
  IsReadable (some (inline code)) = Unit
  IsReadable none = Unit

  -- A file of a variable is missing, or can be read.
  abbrev pub IsOptional : EnvValueSource → Type 0
  IsOptional (value v) = Unit
  IsOptional (file p) = w.read_to_string p ≢ err other_failure

  -- A definition whose code, files and schedules the runtime can take.
  abbrev pub IsReady : Entry → Type 0
  IsReady (definition f c) =
      IsReadable c.code
      × All (λ v. IsOptional v.source) (listed c.env)
      × All (λ t. is_some (w.parse_schedule t.schedule) ≡ true) (cron_of c.triggers)
  IsReady unreadable = Unit
  IsReady not_a_file = Unit
  IsReady not_unicode = ⊥
  IsReady no_function_id = Unit
  IsReady fails_to_load = Unit

  module_code_total :
      (f : String) (c : Option FunctionCodeConfig)
      → IsReadable c
      → is_some (module_code w f c) ≡ true
  unfolding module_code
  module_code_total f (some (path p)) h = elim (Result-cases (w.read p)) [
    | inl (code, e) ↦ ground arith
    | inr (x, e) ↦ absurd (h x e)
  ]
  module_code_total f (some (inline code)) h = refl
  module_code_total f none h = ground arith

  cron_triggers_total :
      (f : String) (ts : List FunctionCronTriggerConfig)
      → All (λ t. is_some (w.parse_schedule t.schedule) ≡ true) ts
      → is_some (cron_triggers w f ts) ≡ true
  unfolding cron_triggers
  cron_triggers_total f [] h = refl
  cron_triggers_total f (t ∷ ts) (h, hs) = ground (arith, cron_triggers_total f ts hs)

  collect_env_total :
      (env : Dict String String) (vs : List EnvVariableConfig)
      → All (λ v. IsOptional v.source) vs
      → is_some (collect_env w env vs) ≡ true
  unfolding collect_env
  collect_env_total env [] h = refl
  collect_env_total env (v ∷ vs) (h, hs) = elim (source-cases v.source) [
    | inl (x, e) ↦ ground (arith, collect_env_total (insert v.id x env) vs hs)
    | inr (p, e) ↦ elim (Result-cases (w.read_to_string p)) [
      | inl (x, k) ↦ ground (arith, collect_env_total (insert v.id x env) vs hs)
      | inr (missing, k) ↦ ground (arith, collect_env_total env vs hs)
      | inr (other_failure, k) ↦ absurd (subst IsOptional e h k)
    ]
  ]

  module _ (compiler : w.compiler_runs ≡ true) (workers : w.workers_run ≡ true) where
    send_step_total :
        (m : Monitor) (f : String) (n : ℕ) (c : FunctionConfig) (compiled : M)
        → IsReady (definition f c)
        → is_some (send_step w m f n c compiled) ≡ true
    unfolding send_step
    send_step_total m f n c compiled (r, vs, ts) = ground (
      arith,
      workers,
      collect_env_total [] (listed c.env) vs,
      cron_triggers_total f (cron_of c.triggers) ts,
    )

    code_step_total :
        (m : Monitor) (f : String) (c : FunctionConfig) (code : _)
        → IsReady (definition f c)
        → is_some (code_step w m f c code) ≡ true
    unfolding code_step compile_step
    code_step_total m f c (err e) h = refl
    code_step_total m f c (ok code) h = elim (Option-cases (w.compile code)) [
      | inl p ↦ ground arith
      | inr (compiled, p) ↦ ground (
        arith,
        send_step_total (record m { deployment_id_counter = m.deployment_id_counter + 1 }) f
            m.deployment_id_counter c compiled h,
      )
    ]

    apply_config_total :
        (m : Monitor) (f : String) (c : FunctionConfig)
        → IsReady (definition f c)
        → is_some (apply_config w m f c) ≡ true
    unfolding apply_config
    apply_config_total m f c h = elim (Option-cases (module_code w f c.code)) [
      | inl p ↦ absurd (ground (arith, module_code_total f c.code h.0))
      | inr (code, p) ↦ ground (
        arith,
        code_step_total (record m { runtime_state = add_function m.runtime_state f }) f c code h,
      )
    ]

    visit_total :
        (prev : Dict String FunctionConfig) (m : Monitor) (e : Entry)
        → IsReady e
        → is_some (visit w prev m e) ≡ true
    unfolding visit
    visit_total prev m (definition f c) h = ground (arith, apply_config_total m f c h)
    visit_total prev m unreadable h = refl
    visit_total prev m not_a_file h = refl
    visit_total prev m not_unicode h = absurd h
    visit_total prev m no_function_id h = refl
    visit_total prev m fails_to_load h = refl

    scan_total :
        (prev : Dict String FunctionConfig) (m : Monitor) (es : List Entry)
        → All IsReady es
        → is_some (scan w prev m es) ≡ true
    unfolding scan
    scan_total prev m [] h = refl
    scan_total prev m (e ∷ es) (h, hs) = elim (Option-cases (visit w prev m e)) [
      | inl p ↦ absurd (ground (arith, visit_total prev m e h))
      | inr (v, p) ↦ ground (arith, scan_total prev v.monitor es hs)
    ]

    -- A pass does not panic if the compiler and all workers still take messages, no file in the
    -- directory has a name that is not UTF-8, and, of every definition in it, a configured path to the
    -- code can be read, the files of the variables are missing or can be read, and the schedules
    -- parse; compilations may fail, and the cron task may be gone.
    pub reconcile_total :
        (m : Monitor) (es : List Entry) → All IsReady es → is_some (reconcile w m es) ≡ true
    unfolding reconcile
    reconcile_total m es h = elim (Option-cases (scan w m.deployed_state m es)) [
      | inl p ↦ absurd (ground (arith, p, scan_total m.deployed_state m es h))
      | inr (p, q) ↦
          let g = scan-IsGrowth w m.deployed_state m es p q in
          rw (q, finish w m.deployed_state p (sweep_none w m.deployed_state p.monitor g.keeps)) refl
    ]
