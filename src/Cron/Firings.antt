-- ===== src/Cron/Firings.antt =====
-- Where the search of `next_run_at` ends.
use padrino.Base.{
  ℕ, zero, suc, ◌+◌, ◌≡◌, ◌<◌, ◌≤◌, ◌⊎◌, refl, inl, inr, Bool, true, false, List, String,
  Bool-cases, Result, ok, ok-injective, arith,
}
use padrino.Cron.{
  Calendar, CronSpec, CronError, max_minutes_ahead, matches, search, run_within, next_run_at, parse,
}

module _ (calendar : Calendar) where
  -- The first moment from `candidate` on that matches, among as many as are left; or none does.
  abbrev pub IsFirst : CronSpec → ℕ → ℕ → Type 0
  IsFirst spec candidate moment =
      (candidate ≤ moment)
      × (matches calendar spec moment ≡ true)
      × ((m : ℕ) → (m < candidate) ⊎ ((moment ≤ m) ⊎ (matches calendar spec m ≡ false)))

  search-IsFirst :
      (left : ℕ) (spec : CronSpec) (candidate moment : ℕ)
      → search calendar left spec candidate ≡ ok moment
      → IsFirst spec candidate moment
  unfolding search
  search-IsFirst zero spec candidate moment h = cc
  search-IsFirst (suc left) spec candidate moment h =
      elim (Bool-cases (matches calendar spec candidate)) [
        | inl hit ↦
            let same : candidate ≡ moment = ok-injective (rw hit at h) in
            (omega (arith, same), ground (arith, hit, same), (λ m. ground (arith, same)))
        | inr miss ↦
            let (later, hit, before) =
              search-IsFirst left spec (suc candidate) moment (rw miss at h) in
            (omega (arith, later), hit, (λ m. ground (arith, before m, miss)))
      ]

  search-none :
      (left : ℕ) (spec : CronSpec) (candidate moment : ℕ)
      → matches calendar spec moment ≡ true
      → candidate ≤ moment
      → moment < candidate + left
      → (first : ℕ) × (search calendar left spec candidate ≡ ok first)
  unfolding search
  search-none zero spec candidate moment hit from below = let no : ⊥ = omega arith in elim no [ ]
  search-none (suc left) spec candidate moment hit from below =
      elim (Bool-cases (matches calendar spec candidate)) [
        | inl now ↦ (candidate, rw now refl)
        | inr miss ↦
            let later : suc candidate ≤ moment = ground (arith, hit, miss) in
            let (first, found) =
              search-none left spec (suc candidate) moment hit later (omega arith) in
            (first, rw miss found)
      ]

  run_within-IsFirst :
      (horizon : ℕ) (parsed : Result CronError CronSpec) (after moment : ℕ) (spec : CronSpec)
      → parsed ≡ ok spec
      → run_within calendar horizon parsed after ≡ ok moment
      → IsFirst spec (suc after) moment
  unfolding run_within
  run_within-IsFirst horizon parsed after moment spec p h =
      search-IsFirst horizon spec (suc after) moment (rw p at h)

  run_within-returns :
      (horizon : ℕ) (parsed : Result CronError CronSpec) (after moment : ℕ) (spec : CronSpec)
      → parsed ≡ ok spec
      → matches calendar spec moment ≡ true
      → after < moment
      → moment ≤ after + horizon
      → (first : ℕ) × (run_within calendar horizon parsed after ≡ ok first)
  unfolding run_within
  run_within-returns horizon parsed after moment spec p hit later near =
      let (first, found) =
        search-none horizon spec (suc after) moment hit (omega arith) (omega arith) in
      (first, rw p found)

  module _ (split_blanks : String → List String) (is_digit : String → Bool) (int : String → ℕ) where
    -- Where the expression is well formed and matches some moment of the next nine years of 366 days,
    -- `next_run_at` returns the first moment after `after` that matches it: a later one, and none
    -- between the two matches.
    pub next_run_at-IsFirst :
        (cron_expr : String) (after moment : ℕ) (spec : CronSpec)
        → parse split_blanks is_digit int cron_expr ≡ ok spec
        → matches calendar spec moment ≡ true
        → after < moment
        → moment ≤ after + max_minutes_ahead
        → (first : ℕ) × (next_run_at calendar split_blanks is_digit int cron_expr after ≡ ok first)
          × IsFirst spec (suc after) first
    unfolding next_run_at
    next_run_at-IsFirst cron_expr after moment spec parsed hit later near =
        let (first, found) =
          run_within-returns max_minutes_ahead _ after moment spec parsed hit later near in
        (first, found, run_within-IsFirst max_minutes_ahead _ after first spec parsed found)
