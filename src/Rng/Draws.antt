-- ===== src/Rng/Draws.antt =====
-- The rejection loop: where it ends, and with what.
use mathlib.Core.Path.{subst}
use padrino.Base.{
  ℕ, zero, suc, ◌≡◌, ◌<◌, inl, inr, true, List, ltb, Bool-cases, ok, ok-injective, returned, is_ok,
  arith,
}
use padrino.Rng.{SeededRng, draw, reject, randbelow}

module _ (sha256 : List ℕ → List ℕ) where
  reject-bound :
      (fuel n : ℕ) (rng : SeededRng) (drawn : ℕ × SeededRng)
      → reject sha256 fuel n rng ≡ ok drawn
      → drawn.0 < n
  unfolding reject
  reject-bound zero n rng drawn h = cc
  reject-bound (suc fuel) n rng drawn h = elim (Bool-cases (ltb (draw sha256 n rng).0 n)) [
    | inl accepted ↦
        let same : draw sha256 n rng ≡ drawn = ok-injective (rw accepted at h) in
        subst (λ d. d.0 < n) same (ground (arith, accepted))
    | inr rejected ↦ reject-bound fuel n (draw sha256 n rng).1 drawn (rw rejected at h)
  ]

  -- The number that `randbelow n` returns is below `n`.
  pub randbelow-bound :
      (fuel n : ℕ) (rng : SeededRng) (drawn : ℕ × SeededRng)
      → randbelow sha256 fuel n rng ≡ ok drawn
      → drawn.0 < n
  unfolding randbelow
  randbelow-bound fuel n rng drawn h = ground (arith, reject-bound fuel n rng drawn)

  -- The generator after `k` rounds.
  unfoldable pub after : (k n : ℕ) → SeededRng → SeededRng
  after zero n rng = rng
  after (suc k) n rng = after k n (draw sha256 n rng).1

  reject-returns :
      (k fuel n : ℕ) (rng : SeededRng)
      → (draw sha256 n (after k n rng)).0 < n
      → k < fuel
      → is_ok (reject sha256 fuel n rng) ≡ true
  unfolding reject after
  reject-returns k zero n rng accepted enough = ground arith
  reject-returns zero (suc fuel) n rng accepted enough = ground (arith, accepted)
  reject-returns (suc k) (suc fuel) n rng accepted enough =
      ground (arith, reject-returns k fuel n (draw sha256 n rng).1 accepted (omega arith))

  randbelow-is_ok :
      (k fuel n : ℕ) (rng : SeededRng)
      → 0 < n
      → (draw sha256 n (after k n rng)).0 < n
      → k < fuel
      → is_ok (randbelow sha256 fuel n rng) ≡ true
  unfolding randbelow
  randbelow-is_ok k fuel n rng positive accepted enough =
      ground (arith, reject-returns k fuel n rng accepted enough)

  -- `randbelow n` returns, for `n` over 0, where one of the rounds that the fuel allows draws a number
  -- below `n`; and the number that it returns is below `n`.
  pub randbelow-returns :
      (k fuel n : ℕ) (rng : SeededRng)
      → 0 < n
      → (draw sha256 n (after k n rng)).0 < n
      → k < fuel
      → (drawn : ℕ × SeededRng) × (randbelow sha256 fuel n rng ≡ ok drawn) × (drawn.0 < n)
  randbelow-returns k fuel n rng positive accepted enough =
      let (drawn, drew) =
        returned (randbelow sha256 fuel n rng)
          (randbelow-is_ok k fuel n rng positive accepted enough) in
      (drawn, drew, randbelow-bound fuel n rng drawn drew)
