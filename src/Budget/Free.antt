-- ===== src/Budget/Free.antt =====
-- The index that `_next_free_index` finds.
use padrino.Base.{
  ℕ, zero, suc, ◌+◌, ◌-◌, ◌≡◌, ◌≤◌, ◌<◌, inl, inr, true, false, ◌||◌, List, [], ◌∷◌, count_if,
  length, mem, nat_eq, ltb, leb, Bool-cases, arith,
}
use padrino.Budget.{free_from, next_free_index}

-- How many of the indices are at least `index`.
abbrev ahead : ℕ → List ℕ → ℕ
ahead index physical = count_if (λ i. leb index i) physical

ahead_mono : (index : ℕ) (physical : List ℕ) → ahead (suc index) physical ≤ ahead index physical
unfolding count_if
ahead_mono index [] = omega arith
ahead_mono index (i ∷ physical) = ground (arith, ahead_mono index physical)

ahead_taken :
    (index : ℕ) (physical : List ℕ)
    → mem index physical ≡ true
    → ahead (suc index) physical < ahead index physical
unfolding count_if mem
ahead_taken index [] h = cc
ahead_taken index (i ∷ physical) h =
    ground (arith, h, ahead_mono index physical, ahead_taken index physical)

ahead-le : (index : ℕ) (physical : List ℕ) → ahead index physical ≤ length physical
unfolding count_if
ahead-le index [] = omega arith
ahead-le index (i ∷ physical) = ground (arith, ahead-le index physical)

free_from-fresh :
    (fuel index implicit_used : ℕ) (physical : List ℕ)
    → (implicit_used - index) + ahead index physical < fuel
    → (ltb (free_from fuel index implicit_used physical) implicit_used
        || mem (free_from fuel index implicit_used physical) physical)
      ≡ false
unfolding free_from
free_from-fresh zero index implicit_used physical h = let no : ⊥ = omega arith in elim no [ ]
free_from-fresh (suc fuel) index implicit_used physical h =
    elim (Bool-cases (ltb index implicit_used || mem index physical)) [
      | inr free ↦ rw free free
      | inl taken ↦ rw taken (
          free_from-fresh fuel (suc index) implicit_used physical
            (ground (arith, h, taken, ahead_mono index physical, ahead_taken index physical)))
    ]

-- `_next_free_index` finds an index that is neither implicitly used nor taken.
pub next_free_index-fresh :
    (implicit_used : ℕ) (physical : List ℕ)
    → (ltb (next_free_index implicit_used physical) implicit_used
        || mem (next_free_index implicit_used physical) physical)
      ≡ false
unfolding next_free_index
next_free_index-fresh implicit_used physical =
    let bound = ahead-le 0 physical in
    free_from-fresh (suc (implicit_used + length physical)) 0 implicit_used physical
      (omega (arith, bound))
