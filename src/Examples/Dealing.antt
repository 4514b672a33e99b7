-- ===== src/Examples/Dealing.antt =====
-- Draws from constant and from counting streams of bytes, a table of three seats and a lobby.
use native.Mathlib.Decide.{ℕ_discrete}
use padrino.Base.{
  ℕ, ◌-◌, ◌≡◌, ◌≤◌, ◌<◌, refl, ok, some, true, List, [], ◌∷◌, All, IsUnique, length, count_if, ◌==◌,
  tally_of, map, get, has, mem, add, sort_by, leb, is_some, range_from, String, String-discrete,
  Dict, arith, if◌then◌else◌, not, ◌&&◌, nat_eq, string_eq,
}
use padrino.Game.{Role, Role-discrete, role_eq, Faction, Seat}
use padrino.Rng.{SeededRng, draw, randbelow, shuffle}
use padrino.Rng.Draws.{after, randbelow-returns}
use padrino.Rng.Shuffle.{Accepts, SameCounts, shuffle-counts}
use padrino.Seating.{
  Ruleset, role_multiset, set_of, available_from, assign_roles, autofill_empty_seats,
}
use padrino.Seating.Dealt.{known, assign_roles-deals}
use padrino.Seating.Filled.{pool, autofill_empty_seats-fills}

-- Blocks of zeros.
abbrev zeros : List ℕ → List ℕ
zeros bytes = 0 ∷ 0 ∷ 0 ∷ 0 ∷ []

abbrev last_or : ℕ → List ℕ → ℕ
last_or n [] = n
last_or n (m ∷ ms) = last_or m ms

-- Blocks of 7 less the counter's last byte.
abbrev falling : List ℕ → List ℕ
falling bytes = (7 - last_or 0 bytes) ∷ []

abbrev start : SeededRng
start = record { seed = []; counter = 0 }

-- 7, 6 and 5 are rejected before 4.
fourth_draw : (draw falling 5 (after falling 3 5 start)).0 < 5
unfolding draw after
fourth_draw = omega arith

randbelow-returns_example :
    (drawn : ℕ × SeededRng) × (randbelow falling 4 5 start ≡ ok drawn) × (drawn.0 < 5)
randbelow-returns_example =
    randbelow-returns falling 3 4 5 start (omega arith) fourth_draw (omega arith)

Accepts-two : Accepts zeros 1 2 start
unfolding randbelow
Accepts-two = (_, refl, (_, refl, tt))

abbrev three : List ℕ
three = 10 ∷ 20 ∷ 30 ∷ []

shuffle-counts_example :
    (done : List ℕ × SeededRng) × (shuffle zeros 1 three start ≡ ok done)
    × SameCounts three (done.0)
    × (length (done.0) ≡ length three)
shuffle-counts_example = shuffle-counts zeros 1 three start Accepts-two

-- The generator that `assign_roles` starts from, seeded with a digest.
Accepts-roles : Accepts zeros 1 2 (record { seed = 0 ∷ 0 ∷ 0 ∷ 0 ∷ []; counter = 0 })
unfolding randbelow
Accepts-roles = (_, refl, (_, refl, tt))

abbrev three_seats : Ruleset
three_seats = record {
  player_count = 3;
  role_counts = (Role.villager, 2) ∷ (Role.mafia_goon, 1) ∷ [];
  role_factions = (Role.mafia_goon, Faction.mafia) ∷ (Role.villager, Faction.town) ∷ [];
}

abbrev no_bytes : String → List ℕ
no_bytes text = []

roles_once : IsUnique three_seats.role_counts
unfolding has Role-discrete
roles_once = (refl, (refl, tt))

factions_known :
    All (λ entry. known three_seats.role_factions (entry.0) ≡ true) three_seats.role_counts
unfolding get Role-discrete
factions_known = (refl, (refl, tt))

three_roles : length (role_multiset three_seats.role_counts) ≡ three_seats.player_count
unfolding role_multiset
three_roles = refl

assign_roles-deals_example :
    (seats : List Seat) × (assign_roles zeros no_bytes 1 "seed" three_seats ≡ ok seats)
    × ((r : Role) → count_if (λ s. s.role == r) seats ≡ tally_of r three_seats.role_counts)
    × (map (λ s. s.seat_index) seats ≡ range_from 0 3)
    × All (λ s. get s.role three_seats.role_factions ≡ some s.faction) seats
assign_roles-deals_example =
    assign_roles-deals zeros no_bytes 1 "seed" three_seats roles_once factions_known three_roles
      Accepts-roles

abbrev roster : List String
roster = "alpha" ∷ "beta" ∷ "alpha" ∷ "gamma" ∷ "delta" ∷ []

abbrev reserved_seat : Dict ℕ String
reserved_seat = (0, "beta") ∷ []

abbrev empty_seats : List ℕ
empty_seats = 4 ∷ 2 ∷ 4 ∷ []

enough_builds :
    length (sort_by leb (set_of empty_seats)) ≤ length (pool zeros no_bytes 1 reserved_seat roster)
unfolding set_of sort_by available_from mem add String-discrete ℕ_discrete
enough_builds = omega arith

Accepts-pool : Accepts zeros 1 (length (pool zeros no_bytes 1 reserved_seat roster) - 1) start
unfolding randbelow available_from mem add String-discrete
Accepts-pool = (_, refl, (_, refl, tt))

autofill_empty_seats-fills_example :
    (assignment : Dict ℕ String) × (autofill_empty_seats zeros no_bytes 1 "lobby" empty_seats
        reserved_seat roster
      ≡ ok assignment)
    × ((k : ℕ) → is_some (get k assignment) ≡ mem k empty_seats)
    × ((b : String)
        → count_if (λ entry. entry.1 == b) assignment
          ≤ (if mem b roster && not (mem b (map (λ entry. entry.1) reserved_seat)) then 1 else 0))
autofill_empty_seats-fills_example =
    autofill_empty_seats-fills zeros no_bytes 1 "lobby" empty_seats reserved_seat roster
      enough_builds Accepts-pool
