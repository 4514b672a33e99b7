-- ===== src/Base/Sort.antt =====
-- `sorted`: a stable sort by a Boolean order. Any stable sort gives the same list.
use mathlib.Core.Path.{◌≡◌, refl}
use mathlib.Core.Bool.{Bool, ◌||◌}
use mathlib.Core.List.{List, [], ◌∷◌}
use native.Mathlib.Omega.{arith}
use padrino.Base.Tests.{if◌then◌else◌}
use padrino.Base.Equality.{Eq, ◌==◌}
use padrino.Base.Sets.{mem}

module _ {ℓ} {A : Type ℓ} (le : A → A → Bool) where
  unfoldable pub insert_by : A → List A → List A
  insert_by x [] = x ∷ []
  insert_by x (y ∷ ys) = let rest = insert_by x ys in if le x y then x ∷ y ∷ ys else y ∷ rest

  unfoldable pub sort_by : List A → List A
  unfolding insert_by
  sort_by [] = []
  sort_by (x ∷ xs) = insert_by x (sort_by xs)

module _ {ℓ} {A : Type ℓ} ⦃e : Eq A⦄ (le : A → A → Bool) where
  mem-insert_by : (z x : A) (xs : List A) → mem z (insert_by le x xs) ≡ x == z || mem z xs
  unfolding insert_by mem
  mem-insert_by z x [] = refl
  mem-insert_by z x (y ∷ ys) = ground (arith, mem-insert_by z x ys)

  pub mem-sort_by : (z : A) (xs : List A) → mem z (sort_by le xs) ≡ mem z xs
  unfolding sort_by mem
  mem-sort_by z [] = refl
  mem-sort_by z (x ∷ xs) = ground (arith, mem-insert_by z x (sort_by le xs), mem-sort_by z xs)
