-- ===== src/Routing/Share.antt =====
-- Which version runs, and how often the canary does.
use py_faa_s.Prelude.{
  ℕ, zero, suc, ◌+◌, ◌≤◌, ◌<◌, ◌==◌, ltb, ◌∙◌, ◌≡◌, ◌⊎◌, inl, inr, Bool, true, false, ◌&&◌, Option,
  none, some, arith, opt_eq, if◌then◌else◌, Option-cases,
}
use py_faa_s.Models.{Function, FunctionVersion, ok}
use py_faa_s.Session.{Session, scalar_one_or_none, scalar-select}
use py_faa_s.Session.Reads.{Reads, Reads-bind, Reads-query, Reads-lift}
use py_faa_s.Routing.{choose_routed, route, choose_execution_version, usable_versions}

-- How many of the draws below `n` meet the test.
pub draws_where : ℕ → (ℕ → Bool) → ℕ
draws_where zero p = 0
draws_where (suc n) p = (if p n then 1 else 0) + draws_where n p

draws_below :
    (n k : ℕ) (p : ℕ → Bool)
    → ((d : ℕ) → d < n → p d ≡ ltb d k)
    → draws_where n p ≡ (if ltb n k then n else k)
unfolding draws_where
draws_below zero k p h = ground arith
draws_below (suc n) k p h =
    ground (arith, draws_below n k p (λ d lt. h d (omega arith)), h n (omega arith))

module _ (fn : Function) (canary : ℕ) (is_canary : fn.canary_version_id ≡ some canary)
    (other : opt_eq fn.active_version_id (some canary) ≡ false)
    (most : fn.canary_percent ≤ 100) where
  routes_canary :
      (d : ℕ) → d < 100 → opt_eq (route fn none d) (some canary) ≡ ltb d fn.canary_percent
  unfolding route
  routes_canary d lt = ground arith

  -- For a canary that differs from the active version and has a share of at most a hundred, exactly
  -- `canary_percent` of the hundred possible draws run the canary.
  pub canary_share :
      draws_where 100 (λ d. opt_eq (route fn none d) (some canary)) ≡ fn.canary_percent
  canary_share =
      draws_below 100 fn.canary_percent (λ d. opt_eq (route fn none d) (some canary)) routes_canary
      ∙ ground arith

-- What is chosen to run, if anything, is an active version of the function: the explicit one if the
-- caller names one, and otherwise the active or the canary version of the function.
pub choose_execution_version_lem :
    (fn : Function) (explicit : Option ℕ) (draw : ℕ) (s : Session) (v : FunctionVersion)
    → (choose_execution_version fn explicit draw s).0 ≡ ok (some v)
    → (v.function_id ≡ fn.id)
      × (v.is_active ≡ true)
      × ((explicit ≡ some v.id)
          ⊎ ((explicit ≡ none)
              × ((fn.active_version_id ≡ some v.id) ⊎ (fn.canary_version_id ≡ some v.id))))
unfolding choose_execution_version
choose_execution_version_lem fn explicit draw s v h = elim (Option-cases (route fn explicit draw)) [
  | inl nowhere ↦ absurd (ground arith)
  | inr (id, routed) ↦
      let found : scalar_one_or_none (usable_versions id fn s.live) ≡ ok (some v) = ground arith in
      let usable : (v.id == id && v.function_id == fn.id && v.is_active) ≡ true =
        scalar-select (λ v. v.id == id && v.function_id == fn.id && v.is_active) s.live.versions v
          found in
      (ground arith, ground arith, ground (arith, routed))
]

routed-Reads : (fn : Function) (r : Option ℕ) → Reads (choose_routed fn r)
unfolding choose_routed
routed-Reads fn none = Reads-lift (ok none)
routed-Reads fn (some id) =
    Reads-bind (Reads-query (usable_versions id fn)) (λ rows. Reads-lift (scalar_one_or_none rows))

pub choose-Reads :
    (fn : Function) (explicit : Option ℕ) (draw : ℕ)
    → Reads (choose_execution_version fn explicit draw)
unfolding choose_execution_version
choose-Reads fn explicit draw = routed-Reads fn (route fn explicit draw)
