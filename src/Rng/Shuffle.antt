-- ===== src/Rng/Shuffle.antt =====
-- The swaps of a shuffle, and what they keep.
use padrino.Base.{
  ℕ, zero, suc, ◌+◌, ◌-◌, ◌≡◌, ◌<◌, refl, ap, ◌∙◌, Bool, true, false, some, List, [], ◌∷◌, length,
  count_if, ok, arith,
}
use padrino.Rng.{SeededRng, get_elem?, set, swap, randbelow, shuffle_from, shuffle}
use padrino.Rng.Draws.{randbelow-bound}

-- `1` for an element that passes, else `0`.
abbrev one_if : Bool → ℕ
one_if true = 1
one_if false = 0

module _ {ℓ} {A : Type ℓ} where
  get_elem?-bound : (xs : List A) (i : ℕ) → i < length xs → (x : A) × (get_elem? xs i ≡ some x)
  unfolding get_elem?
  get_elem?-bound [] i h = let no : ⊥ = omega arith in elim no [ ]
  get_elem?-bound (x ∷ xs) zero h = (x, refl)
  get_elem?-bound (x ∷ xs) (suc i) h = get_elem?-bound xs i (omega arith)

  length-set : (i : ℕ) (a : A) (xs : List A) → length (set i a xs) ≡ length xs
  unfolding set
  length-set i a [] = refl
  length-set zero a (x ∷ xs) = refl
  length-set (suc i) a (x ∷ xs) = ap suc (length-set i a xs)

  count_if-set :
      (p : A → Bool) (i : ℕ) (a x : A) (xs : List A)
      → get_elem? xs i ≡ some x
      → count_if p (set i a xs) + one_if (p x) ≡ count_if p xs + one_if (p a)
  unfolding set get_elem? count_if
  count_if-set p i a x [] h = cc
  count_if-set p zero a x (y ∷ ys) h = ground arith
  count_if-set p (suc i) a x (y ∷ ys) h = ground (arith, count_if-set p i a x ys h)

  get_elem?-set :
      (i j : ℕ) (x : A) (xs : List A) → get_elem? xs j ≡ some x → get_elem? (set i x xs) j ≡ some x
  unfolding set get_elem?
  get_elem?-set i j x [] h = h
  get_elem?-set zero zero x (y ∷ ys) h = refl
  get_elem?-set zero (suc j) x (y ∷ ys) h = h
  get_elem?-set (suc i) zero x (y ∷ ys) h = h
  get_elem?-set (suc i) (suc j) x (y ∷ ys) h = get_elem?-set i j x ys h

  -- The second list has as many elements that pass, for any test.
  abbrev pub SameCounts : List A → List A → Type ℓ
  SameCounts xs ys = (p : A → Bool) → count_if p ys ≡ count_if p xs

  -- A swap of two places of the list succeeds and keeps the counts and the length.
  swap-kept :
      (i j : ℕ) (xs : List A)
      → i < length xs
      → j < length xs
      → (ys : List A) × (swap i j xs ≡ ok ys) × SameCounts xs ys × (length ys ≡ length xs)
  unfolding swap
  swap-kept i j xs hi hj =
      let (x, ex) = get_elem?-bound xs i hi in
      let (y, ey) = get_elem?-bound xs j hj in
      let swapped : swap i j xs ≡ ok (set j x (set i y xs)) = rw ex (rw ey refl) in
      let counts : SameCounts xs (set j x (set i y xs)) = λ p. omega (
        arith,
        count_if-set p i y x xs ex,
        count_if-set p j x y (set i y xs) (get_elem?-set i j y xs ey),
      ) in
      (set j x (set i y xs), swapped, counts, length-set j x (set i y xs) ∙ length-set i y xs)

module _ (sha256 : List ℕ → List ℕ) (fuel : ℕ) where
  -- Each `randbelow` of a shuffle from `i` down returns, from the generator that the draw before leaves.
  abbrev pub Accepts : ℕ → SeededRng → Type 0
  Accepts zero rng = Unit
  Accepts (suc i) rng =
      (drawn : ℕ × SeededRng) × (randbelow sha256 fuel (suc (suc i)) rng ≡ ok drawn)
      × Accepts i (drawn.1)

  module _ {ℓ} {A : Type ℓ} where
    shuffle_from-kept :
        (i : ℕ) (xs : List A) (rng : SeededRng)
        → Accepts i rng
        → i < length xs
        → (done : List A × SeededRng) × (shuffle_from sha256 fuel i xs rng ≡ ok done)
          × SameCounts xs (done.0)
          × (length (done.0) ≡ length xs)
    unfolding shuffle_from
    shuffle_from-kept zero xs rng accepts h = ((xs, rng), refl, (λ p. refl), refl)
    shuffle_from-kept (suc i) xs rng accepts h =
        let (drawn, drew, later) = accepts in
        let below = randbelow-bound sha256 fuel (suc (suc i)) rng drawn drew in
        let (ys, swapped, counts, same) = swap-kept (suc i) (drawn.0) xs h (omega (arith, below)) in
        let (done, rest, counts', same') =
          shuffle_from-kept i ys (drawn.1) later (omega (arith, same)) in
        (done, rw drew (rw swapped rest), (λ p. counts' p ∙ counts p), same' ∙ same)

    -- Where each `randbelow` of the shuffle returns, `shuffle` returns too, without an `IndexError`, a
    -- list that has as many elements that pass as the items have, for any test, and as many in all.
    pub shuffle-counts :
        (items : List A) (rng : SeededRng)
        → Accepts (length items - 1) rng
        → (done : List A × SeededRng) × (shuffle sha256 fuel items rng ≡ ok done)
          × SameCounts items (done.0)
          × (length (done.0) ≡ length items)
    unfolding shuffle shuffle_from
    shuffle-counts [] rng accepts = (([], rng), refl, (λ p. refl), refl)
    shuffle-counts (x ∷ xs) rng accepts =
        shuffle_from-kept (length (x ∷ xs) - 1) (x ∷ xs) rng accepts (omega arith)
