-- ===== src/Management/Listing.antt =====
-- What the listing of the management thread shows after each operation.
use native.Mathlib.Omega.{arith}
use fx.Prelude.{
  Eq, string_eq, pair_eq, ℕ, ◌+◌, pair_beq, Bool, false, not, ◌||◌, ◌≡◌, some, List, [], ◌∷◌, ◌++◌,
  String, ◌==◌, ==_iff, any, retain, if◌then◌else◌, Bool-cases, inl, inr,
}
use fx.Prelude.Dict.{lookup-insert}
use fx.Management.{
  RuntimeState, add_function, remove_function, record_cron_run, cron_last_run, is_cron_running,
  mark_cron_running,
}

-- How often a function is listed.
abbrev pub count : String → List String → ℕ
count f [] = 0
count f (g ∷ gs) = (if g == f then 1 else 0) + count f gs

count-append : (f : String) (xs ys : List String) → count f (xs ++ ys) ≡ count f xs + count f ys
count-append f [] ys = omega arith
count-append f (x ∷ xs) ys = omega (arith, count-append f xs ys)

count-retain :
    (f g : String) (xs : List String)
    → count g (retain (λ h. not (h == f)) xs) ≡ (if f == g then 0 else count g xs)
count-retain f g [] = ground arith
count-retain f g (x ∷ xs) = ground (arith, ==_iff x f, ==_iff x g, ==_iff f g, count-retain f g xs)

-- Adding a function lists it once, however often it was listed, and removing it lists it no more;
-- every other function is listed as often as before.
pub listed_once :
    (s : RuntimeState) (f g : String)
    → (count g (add_function s f).functions ≡ (if f == g then 1 else count g s.functions))
      × (count g (remove_function s f).functions ≡ (if f == g then 0 else count g s.functions))
unfolding add_function remove_function
listed_once s f g = (
  ground (
    arith,
    count-append g (retain (λ h. not (h == f)) s.functions) (f ∷ []),
    count-retain f g s.functions,
  ),
  count-retain f g s.functions,
)

any-retain {ℓ} :
    {A : Type ℓ} ⦃e : Eq A⦄ (a b : A) (xs : List A)
    → any (λ x. x == b) (retain (λ x. not (x == a)) xs)
      ≡ (if a == b then false else any (λ x. x == b) xs)
any-retain a b [] = ground arith
any-retain a b (x ∷ xs) = ground (arith, ==_iff x a, ==_iff x b, ==_iff a b, any-retain a b xs)

-- Whether two tasks are the same: by the function and the name.
abbrev pub same_task : (f name g other : String) → Bool
same_task f name g other = pair_beq (f, name) (g, other)

mark_running :
    (s : RuntimeState) (f g name other : String)
    → is_cron_running (mark_cron_running s name f) other g
      ≡ (same_task f name g other || is_cron_running s other g)
unfolding mark_cron_running is_cron_running
mark_running s f g name other = elim (Bool-cases (is_cron_running s name f)) [
  | inl runs ↦ ground (arith, ==_iff f g, ==_iff name other)
  | inr idle ↦ ground (arith, ==_iff f g, ==_iff name other)
]

-- A task counts as running from the event of its start to the event of its run, which is then its
-- last run; the events of other tasks, of the same or of another function, change neither.
pub running_between :
    (s : RuntimeState) (f g name other : String) (run_at : ℕ)
    → (is_cron_running (mark_cron_running s name f) other g
        ≡ (same_task f name g other || is_cron_running s other g))
      × (is_cron_running (record_cron_run s name f run_at) other g
          ≡ (if same_task f name g other then false else is_cron_running s other g))
      × (cron_last_run (record_cron_run s name f run_at) other g
          ≡ (if same_task f name g other then some run_at else cron_last_run s other g))
unfolding is_cron_running mark_cron_running record_cron_run cron_last_run
running_between s f g name other run_at = (
  mark_running s f g name other,
  any-retain (f, name) (g, other) s.cron_running,
  lookup-insert (f, name) (g, other) run_at s.cron_last_runs,
)
