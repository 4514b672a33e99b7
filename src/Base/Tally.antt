-- ===== src/Base/Tally.antt =====
-- Vote tallies: which key has the most votes, and when there is exactly one.
use padrino.Base.Tests.{if◌then◌else◌, ◌=ℕ=◌, Bool-cases}
use padrino.Base.Equality.{Eq, ◌==◌}
use padrino.Base.Sets.{mem}
use padrino.Base.Dictionaries.{Dict, tally_of, bump, sum_values, max_value, keys_at}
use Prim.Native.Nat.{ℕ, ◌+◌, ◌≤◌, ◌<◌}
use mathlib.Core.Path.{◌≡◌, refl}
use mathlib.Core.Logic.{◌≢◌, inl, inr}
use mathlib.Core.Bool.{Bool, true, false, ◌&&◌, ◌||◌}
use mathlib.Core.List.{List, [], ◌∷◌}
use native.Mathlib.Omega.{arith}

module _ {ℓ} {K : Type ℓ} where
  max-le-sum : (d : Dict K ℕ) → max_value d ≤ sum_values d
  unfolding max_value sum_values
  max-le-sum [] = omega arith
  max-le-sum ((k, n) ∷ d) = ground (arith, max-le-sum d)

  keys_at_above : (n : ℕ) (d : Dict K ℕ) → sum_values d < n → keys_at n d ≡ []
  unfolding keys_at sum_values
  keys_at_above n [] h = refl
  keys_at_above n ((k, m) ∷ d) h = ground (arith, keys_at_above n d)

  keys_at_max_cons :
      (k : K) (n : ℕ) (d : Dict K ℕ)
      → keys_at (max_value d) d ≢ []
      → keys_at (max_value ((k, n) ∷ d)) ((k, n) ∷ d) ≢ []
  unfolding keys_at max_value
  keys_at_max_cons k n d h = ground arith

  -- Some key has the most votes.
  pub keys_at_max :
      (k : K) (n : ℕ) (d : Dict K ℕ) → keys_at (max_value ((k, n) ∷ d)) ((k, n) ∷ d) ≢ []
  keys_at_max k n [] = unfold keys_at max_value in ground arith
  keys_at_max k n ((j, m) ∷ d) = keys_at_max_cons k n ((j, m) ∷ d) (keys_at_max j m d)

module _ {ℓ} {K : Type ℓ} ⦃e : Eq K⦄ where
  tally_of-le-sum : (k : K) (d : Dict K ℕ) → tally_of k d ≤ sum_values d
  unfolding tally_of sum_values
  tally_of-le-sum k [] = omega arith
  tally_of-le-sum k ((j, n) ∷ d) = ground (arith, tally_of-le-sum k d)

  -- A key with more than half of all votes is the only one with the most votes.
  pub majority_wins :
      (k : K) (d : Dict K ℕ)
      → sum_values d < tally_of k d + tally_of k d
      → (max_value d ≡ tally_of k d) × (keys_at (tally_of k d) d ≡ k ∷ [])
  unfolding tally_of sum_values max_value keys_at
  majority_wins k [] h = absurd (omega arith)
  majority_wins k ((j, n) ∷ d) h =
      ground (arith, max-le-sum d, keys_at_above n d, tally_of-le-sum k d, majority_wins k d)

  unfoldable pub has : K → Dict K ℕ → Bool
  has k [] = false
  has k ((j, n) ∷ d) = j == k || has k d

  -- Each key has one entry.
  abbrev pub IsUnique : Dict K ℕ → Type 0
  IsUnique [] = Unit
  IsUnique ((k, n) ∷ d) = (has k d ≡ false) × IsUnique d

  pub has-bump : (k j : K) (n : ℕ) (d : Dict K ℕ) → has j (bump k n d) ≡ k == j || has j d
  unfolding has bump
  has-bump k j n [] = refl
  has-bump k j n ((i, m) ∷ d) = ground (arith, has-bump k j n d)

  pub IsUnique-bump : (k : K) (n : ℕ) (d : Dict K ℕ) → IsUnique d → IsUnique (bump k n d)
  unfolding has bump
  IsUnique-bump k n [] u = (refl, tt)
  IsUnique-bump k n ((j, m) ∷ d) u =
      elim (e.dec j k)
        as (λ c. IsUnique (
          if (elim c [ yes p ↦ true | no p ↦ false ])
          then (j, m + n) ∷ d
          else (j, m) ∷ bump k n d)) [
            | yes p ↦ u
            | no p ↦ (ground (arith, has-bump k j n d), IsUnique-bump k n d u.1)
          ]

  pub mem-keys_at :
      (k : K) (top : ℕ) (d : Dict K ℕ)
      → IsUnique d
      → mem k (keys_at top d) ≡ has k d && tally_of k d =ℕ= top
  unfolding mem keys_at has tally_of
  mem-keys_at k top [] u = refl
  mem-keys_at k top ((j, m) ∷ d) u = ground (arith, u.0, mem-keys_at k top d u.1)

  pub tally_of-le-max : (k : K) (d : Dict K ℕ) → tally_of k d ≤ max_value d
  unfolding tally_of max_value
  tally_of-le-max k [] = omega arith
  tally_of-le-max k ((j, m) ∷ d) = ground (arith, tally_of-le-max k d)

  -- The keys with `top` votes are different keys.
  pub keys_at_distinct :
      (top : ℕ) (d : Dict K ℕ) (w v : K) (ws : List K)
      → IsUnique d
      → keys_at top d ≡ w ∷ v ∷ ws
      → w ≢ v
  unfolding keys_at mem
  keys_at_distinct top [] w v ws u h = absurd (ground arith)
  keys_at_distinct top ((k, n) ∷ d) w v ws u h = elim (Bool-cases (n =ℕ= top)) [
    | inl hit ↦
        let rest : keys_at top d ≡ v ∷ ws = ground arith in
        let seen : mem v (keys_at top d) ≡ true = rw rest (ground arith) in
        λ same. ground (arith, mem-keys_at v top d u.1, seen)
    | inr miss ↦ keys_at_distinct top d w v ws u.1 (ground arith)
  ]
