-- ===== src/Base/Dictionaries.antt =====
-- Python dictionaries: association lists in insertion order, with one entry for a key.
use Prim.Native.Nat.{ℕ, ◌+◌}
use mathlib.Core.Path.{◌≡◌, refl}
use mathlib.Core.Option.{Option, none, some}
use mathlib.Core.List.{List, [], ◌∷◌}
use native.Mathlib.Omega.{arith}
use padrino.Base.Tests.{if◌then◌else◌, ltb, ◌=ℕ=◌}
use padrino.Base.Equality.{Eq, ◌==◌}

abbrev pub Dict {ℓ κ} : Type ℓ → Type κ → Type (ℓ ⊔ κ)
Dict K V = List (K × V)

module _ {ℓ κ} {K : Type ℓ} {V : Type κ} ⦃e : Eq K⦄ where
  -- `d.get(k)`
  unfoldable pub get : K → Dict K V → Option V
  get k [] = none
  get k ((j, v) ∷ d) = let rest = get k d in if j == k then some v else rest

  -- `d[k] = v`
  unfoldable pub put : K → V → Dict K V → Dict K V
  put k v [] = (k, v) ∷ []
  put k v ((j, w) ∷ d) = let rest = put k v d in if j == k then (j, v) ∷ d else (j, w) ∷ rest

  -- `d.setdefault(k, v)`
  unfoldable pub setdefault : K → V → Dict K V → Dict K V
  setdefault k v [] = (k, v) ∷ []
  setdefault k v ((j, w) ∷ d) =
      let rest = setdefault k v d in if j == k then (j, w) ∷ d else (j, w) ∷ rest

  pub get-put :
      (k j : K) (v : V) (d : Dict K V) → get j (put k v d) ≡ (if k == j then some v else get j d)
  unfolding get put
  get-put k j v [] = refl
  get-put k j v ((i, w) ∷ d) = ground (arith, get-put k j v d)

module _ {ℓ} {K : Type ℓ} ⦃e : Eq K⦄ where
  -- `d.get(k, 0)`
  unfoldable pub tally_of : K → Dict K ℕ → ℕ
  tally_of k [] = 0
  tally_of k ((j, n) ∷ d) = let rest = tally_of k d in if j == k then n else rest

  -- `d[k] = d.get(k, 0) + n`
  unfoldable pub bump : K → ℕ → Dict K ℕ → Dict K ℕ
  bump k n [] = (k, n) ∷ []
  bump k n ((j, m) ∷ d) = let rest = bump k n d in if j == k then (j, m + n) ∷ d else (j, m) ∷ rest

  pub tally_of-bump :
      (k j : K) (n : ℕ) (d : Dict K ℕ)
      → tally_of j (bump k n d) ≡ (if k == j then tally_of j d + n else tally_of j d)
  unfolding tally_of bump
  tally_of-bump k j n [] = ground arith
  tally_of-bump k j n ((i, w) ∷ d) = ground (arith, tally_of-bump k j n d)

module _ {ℓ} {K : Type ℓ} where
  -- `sum(d.values())`
  unfoldable pub sum_values : Dict K ℕ → ℕ
  sum_values [] = 0
  sum_values ((k, n) ∷ d) = n + sum_values d

  -- `max(d.values())`, 0 for the empty dictionary.
  unfoldable pub max_value : Dict K ℕ → ℕ
  max_value [] = 0
  max_value ((k, n) ∷ d) = let m = max_value d in if ltb m n then n else m

  -- `[k for k, n in d.items() if n == top]`
  unfoldable pub keys_at : ℕ → Dict K ℕ → List K
  keys_at top [] = []
  keys_at top ((k, n) ∷ d) = let rest = keys_at top d in if n =ℕ= top then k ∷ rest else rest

module _ {ℓ} {K : Type ℓ} ⦃e : Eq K⦄ where
  pub sum_values-bump : (k : K) (n : ℕ) (d : Dict K ℕ) → sum_values (bump k n d) ≡ sum_values d + n
  unfolding sum_values bump
  sum_values-bump k n [] = omega arith
  sum_values-bump k n ((j, m) ∷ d) = ground (arith, sum_values-bump k n d)
