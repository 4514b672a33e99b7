-- ===== src/Win/Counts.antt =====
-- Counting the living: the sum over all factions, and what it says of the seats.
use padrino.Base.{
  ℕ, ◌+◌, ◌≤◌, ◌≡◌, refl, ◌∙◌, true, ◌&&◌, List, [], ◌∷◌, ◌==◌, count_if, All, arith, Dict, bump,
  sum_values, sum_values-bump,
}
use padrino.Game.{Faction, faction_eq, Seat, GameState, alive_counts_by_faction, count_factions}
use padrino.Win.{total_alive}

sum-count_factions :
    (seats : List Seat) (counts : Dict Faction ℕ)
    → sum_values (count_factions seats counts) ≡ sum_values counts + count_if (λ s. s.alive) seats
unfolding count_factions count_if
sum-count_factions [] counts = omega arith
sum-count_factions (s ∷ seats) counts = ground (
  arith,
  sum-count_factions seats (bump s.faction 1 counts),
  sum-count_factions seats counts,
  sum_values-bump s.faction 1 counts,
)

-- The counts of all factions add up to the number of living seats.
pub total_alive_count : (s : GameState) → total_alive s ≡ count_if (λ x. x.alive) s.seats
unfolding total_alive alive_counts_by_faction sum_values
total_alive_count s = sum-count_factions s.seats [] ∙ omega arith

count_by_faction-le :
    (f : Faction) (xs : List Seat)
    → count_if (λ x. x.alive && x.faction == f) xs ≤ count_if (λ x. x.alive) xs
unfolding count_if
count_by_faction-le f [] = omega arith
count_by_faction-le f (x ∷ xs) = ground (arith, count_by_faction-le f xs)

-- All living seats belong to `f`.
abbrev pub OnlyAlive : Faction → List Seat → Type 0
OnlyAlive f = All (λ x. x.alive ≡ true → x.faction ≡ f)

pub OnlyAlive-of_count :
    (f : Faction) (xs : List Seat)
    → count_if (λ x. x.alive) xs ≤ count_if (λ x. x.alive && x.faction == f) xs
    → OnlyAlive f xs
unfolding count_if
OnlyAlive-of_count f [] h = tt
OnlyAlive-of_count f (x ∷ xs) h = (
  (λ alive. ground (arith, count_by_faction-le f xs)),
  OnlyAlive-of_count f xs (ground (arith, count_by_faction-le f xs)),
)

pub count_of_OnlyAlive :
    (f : Faction) (xs : List Seat)
    → OnlyAlive f xs
    → count_if (λ x. x.alive) xs ≡ count_if (λ x. x.alive && x.faction == f) xs
unfolding count_if
count_of_OnlyAlive f [] h = refl
count_of_OnlyAlive f (x ∷ xs) h = ground (arith, h.0, count_of_OnlyAlive f xs h.1)
