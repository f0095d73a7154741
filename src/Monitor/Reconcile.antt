-- ===== src/Monitor/Reconcile.antt =====
-- What a pass over the functions directory does to what is deployed,
-- fx-runtime/src/definitions/monitor.rs.
use mathlib.Core.Option
use mathlib.Core.Option.{some-injective}
use fx.Prelude.{
  append_nil, All, Bool-cases, string_eq, true, false, some, List, [], ◌∷◌, String, Option-cases,
  is_some, ==_iff, ◌≡◌, refl, sym, ◌∙◌, subst, inl, inr, arith,
}
use fx.Prelude.Dict.{Dict, lookup}
use fx.Config.{FunctionConfig}
use fx.Config.Same.{same_config_refl}
use fx.Monitor.{Environment, Monitor, Message, apply_config}
use fx.Monitor.Directory.{
  sent_before, Pass, Entry, unreadable, not_a_file, not_unicode, no_function_id, fails_to_load,
  definition, record_applied, is_unchanged, visit, scan, sweep, finish_pass, reconcile,
}
use fx.Monitor.Growth.{
  IsGrowth, mapped, chained, idle, both, record_applied-IsGrowth, apply_config-IsApplied,
}

module _ {M S : Type 0} (w : Environment M S) (prev : Dict String FunctionConfig) where
  visit-IsGrowth :
      (m : Monitor) (e : Entry) (p : Pass M S)
      → visit w prev m e ≡ some p
      → IsGrowth m p.monitor p.messages
  unfolding visit
  visit-IsGrowth m (definition f c) p h = elim (Bool-cases (is_unchanged prev f c)) [
    | inl k ↦ idle m p (ground arith)
    | inr k ↦
        let h' : Option.map (λ a. record_applied f c a.monitor a.messages a.result)
              (apply_config w m f c)
            ≡ some p =
          ground arith in
        let (a, q, r) =
          mapped (λ a. record_applied f c a.monitor a.messages a.result) (apply_config w m f c)
            h' in
        subst (λ (x : Pass M S). IsGrowth m x.monitor x.messages) r
          (record_applied-IsGrowth m f c a a.result (apply_config-IsApplied w m f c a q))
  ]
  visit-IsGrowth m unreadable p h = idle m p (ground arith)
  visit-IsGrowth m not_a_file p h = idle m p (ground arith)
  visit-IsGrowth m not_unicode p h = absurd (ground (arith, h))
  visit-IsGrowth m no_function_id p h = idle m p (ground arith)
  visit-IsGrowth m fails_to_load p h = idle m p (ground arith)

  pub scan-IsGrowth :
      (m : Monitor) (es : List Entry) (p : Pass M S)
      → scan w prev m es ≡ some p
      → IsGrowth m p.monitor p.messages
  unfolding scan
  scan-IsGrowth m [] p h = idle m p h
  scan-IsGrowth m (e ∷ es) p h = elim (Option-cases (visit w prev m e)) [
    | inl k ↦ absurd (ground arith)
    | inr (v, k) ↦ elim (Bool-cases v.stopped) [
      | inl s ↦
          subst (λ (x : Pass M S). IsGrowth m x.monitor x.messages) {x = v} {y = p} (ground arith)
            (visit-IsGrowth m e v k)
      | inr s ↦
          let h' : Option.map (sent_before v.messages) (scan w prev v.monitor es) ≡ some p =
            ground arith in
          let (rest, q, r) = mapped (sent_before v.messages) (scan w prev v.monitor es) h' in
          subst (λ (x : Pass M S). IsGrowth m x.monitor x.messages) r
            (both (visit-IsGrowth m e v k) (scan-IsGrowth v.monitor es rest q))
    ]
  ]

present :
    (f : String) (c : FunctionConfig) (prev : Dict String FunctionConfig)
    → is_some (lookup f ((f, c) ∷ prev)) ≡ true
unfolding lookup
present f c prev = ground (arith, ==_iff f f)

later :
    (f g : String) (c : FunctionConfig) (prev : Dict String FunctionConfig)
    → is_some (lookup g prev) ≡ true
    → is_some (lookup g ((f, c) ∷ prev)) ≡ true
unfolding lookup
later f g c prev p = ground arith

-- Functions that are still deployed are not swept away.
pub sweep_none :
    {M S : Type 0} (w : Environment M S) (prev : Dict String FunctionConfig) (m : Monitor)
    → ((g : String) → is_some (lookup g prev) ≡ true → is_some (lookup g m.deployed_state) ≡ true)
    → sweep w prev m ≡ some (m, [])
unfolding sweep
sweep_none w [] m h = refl
sweep_none w ((f, c) ∷ prev) m h = elim (Option-cases (lookup f m.deployed_state)) [
  | inl k ↦ absurd (ground (arith, h f (present f c prev), k))
  | inr (d, k) ↦ let rest = sweep_none w prev m (λ g p. h g (later f g c prev p)) in ground arith
]

-- A pass that does not end early, or sweeps nothing away, leaves what the scan left.
pub finish :
    {M S : Type 0} (w : Environment M S) (prev : Dict String FunctionConfig) (p : Pass M S)
    → sweep w prev p.monitor ≡ some (p.monitor, [])
    → finish_pass w prev p ≡ some (p.monitor, p.messages)
unfolding finish_pass
finish w prev p h = ground (arith, h, append_nil p.messages)

-- The entry is no definition, or the one that is deployed, and its name is UTF-8.
abbrev pub IsSettled : Monitor → Entry → Type 0
IsSettled m (definition f c) = lookup f m.deployed_state ≡ some c
IsSettled m unreadable = Unit
IsSettled m not_a_file = Unit
IsSettled m not_unicode = ⊥
IsSettled m no_function_id = Unit
IsSettled m fails_to_load = Unit

module _ {M S : Type 0} (w : Environment M S) where
  scan_settled :
      (m : Monitor) (es : List Entry)
      → All (IsSettled m) es
      → scan w m.deployed_state m es ≡ some (record { monitor = m; messages = []; stopped = false })
  unfolding scan visit is_unchanged
  scan_settled m [] h = refl
  scan_settled m (definition f c ∷ es) (h, hs) =
      ground (arith, h, same_config_refl c, scan_settled m es hs)
  scan_settled m (unreadable ∷ es) (h, hs) = ground (arith, scan_settled m es hs)
  scan_settled m (not_a_file ∷ es) (h, hs) = ground (arith, scan_settled m es hs)
  scan_settled m (not_unicode ∷ es) (h, hs) = absurd h
  scan_settled m (no_function_id ∷ es) (h, hs) = ground (arith, scan_settled m es hs)
  scan_settled m (fails_to_load ∷ es) (h, hs) = ground (arith, scan_settled m es hs)

module _ {M S : Type 0} (w : Environment M S) where
  -- A pass over the functions directory that does not panic keeps every function deployed, never
  -- tells the workers to remove one, and gives the deployments it sends increasing ids, which start
  -- at the counter from before the pass or above and lie below the counter after it.
  pub reconcile-IsGrowth :
      (m : Monitor) (es : List Entry) (r : Monitor × List (Message M S))
      → reconcile w m es ≡ some r
      → IsGrowth m r.0 r.1
  unfolding reconcile
  reconcile-IsGrowth m es r h =
      let (p, q, e) = chained (finish_pass w m.deployed_state) (scan w m.deployed_state m es) h in
      let g = scan-IsGrowth w m.deployed_state m es p q in
      let k = sweep_none w m.deployed_state p.monitor g.keeps in
      subst (λ (x : Monitor × List (Message M S)). IsGrowth m x.0 x.1) {x = (p.monitor, p.messages)}
        (some-injective (p.monitor, p.messages) r (sym (finish w m.deployed_state p k) ∙ e)) g

  -- A pass over a directory in which every definition is the one already deployed changes nothing
  -- and sends nothing, whatever else the directory holds, unless it holds a file whose name is not
  -- UTF-8.
  pub reconcile_settled :
      (m : Monitor) (es : List Entry) → All (IsSettled m) es → reconcile w m es ≡ some (m, [])
  unfolding reconcile
  reconcile_settled m es h =
      let k = sweep_none w m.deployed_state m (λ g x. x) in
      rw (scan_settled w m es h)
        (finish w m.deployed_state (record { monitor = m; messages = []; stopped = false }) k)
