-- ===== src/Base/Sets.antt =====
-- Membership, and Python sets as lists: `mem` is `in`, `add` is `s.add(x)`, `diff` is `s - t`.
use mathlib.Core.Path.{◌≡◌, refl}
use mathlib.Core.Bool.{Bool, false, ◌&&◌, ◌||◌, not}
use mathlib.Core.List.{List, [], ◌∷◌, ◌++◌}
use native.Mathlib.Omega.{arith}
use padrino.Base.Tests.{if◌then◌else◌}
use padrino.Base.Equality.{Eq, ◌==◌}
use padrino.Base.Lists.{filter}

module _ {ℓ} {A : Type ℓ} ⦃e : Eq A⦄ where
  unfoldable pub mem : A → List A → Bool
  mem x [] = false
  mem x (y ∷ ys) = y == x || mem x ys

  unfoldable pub add : A → List A → List A
  add x xs = if mem x xs then xs else xs ++ x ∷ []

  unfoldable pub diff : List A → List A → List A
  diff xs ys = filter (λ x. not (mem x ys)) xs

  pub mem-append : (x : A) (xs ys : List A) → mem x (xs ++ ys) ≡ mem x xs || mem x ys
  unfolding mem
  mem-append x [] ys = refl
  mem-append x (y ∷ xs) ys = ground (arith, mem-append x xs ys)

  pub mem-add : (x y : A) (xs : List A) → mem x (add y xs) ≡ y == x || mem x xs
  unfolding add mem
  mem-add x y xs = ground (arith, mem-append x xs (y ∷ []))

  mem-filter : (p : A → Bool) (x : A) (xs : List A) → mem x (filter p xs) ≡ mem x xs && p x
  unfolding mem filter
  mem-filter p x [] = refl
  mem-filter p x (y ∷ xs) = ground (arith, mem-filter p x xs)

  pub mem-diff : (x : A) (xs ys : List A) → mem x (diff xs ys) ≡ mem x xs && not (mem x ys)
  unfolding diff
  mem-diff x xs ys = mem-filter (λ z. not (mem z ys)) x xs
