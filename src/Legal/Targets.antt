-- ===== src/Legal/Targets.antt =====
-- Whom a legal action can name.
use padrino.Base.{
  ◌≡◌, refl, Bool, true, false, some, List, [], ◌∷◌, map, filter, find, mem, String, ◌==◌,
  string_eq, option_eq, arith, String-discrete,
}
use padrino.Game.{
  faction_eq, role_eq, action_type_eq, Seat, GameState, living_seats, seat_by_public_id,
}
use padrino.Legal.{ids_where}

-- Every player id has one seat.
abbrev pub IsRoster : List Seat → Type 0
IsRoster [] = Unit
IsRoster (seat ∷ seats) =
    (mem seat.public_player_id (map (λ s. s.public_player_id) seats) ≡ false) × IsRoster seats

absent :
    (test : Seat → Bool) (seats : List Seat) (pid : String)
    → mem pid (map (λ s. s.public_player_id) seats) ≡ false
    → mem pid (map (λ s. s.public_player_id) (filter test (filter (λ s. s.alive) seats))) ≡ false
unfolding mem filter
absent test [] pid h = refl
absent test (s ∷ ss) pid h = ground (arith, absent test ss pid, h)

ids_where-seats :
    (test : Seat → Bool) (seats : List Seat) (pid : String)
    → IsRoster seats
    → mem pid (map (λ s. s.public_player_id) (filter test (filter (λ s. s.alive) seats))) ≡ true
    → (seat : Seat) × (find (λ s. s.public_player_id == pid) seats ≡ some seat)
      × (seat.public_player_id ≡ pid)
      × (seat.alive ≡ true)
      × (test seat ≡ true)
unfolding mem filter find
ids_where-seats test [] pid u m = absurd (ground arith)
ids_where-seats test (s ∷ ss) pid u m = elim (String-discrete s.public_player_id pid) [
  | yes e ↦ (
    s,
    ground (arith, e),
    e,
    ground (arith, absent test ss pid, u.0, e),
    ground (arith, absent test ss pid, u.0, e),
  )
  | no n ↦
      let (seat, found, same, alive, passes) =
        ids_where-seats test ss pid u.1 (ground (arith, n, m)) in
      (seat, ground (arith, n, found), same, alive, passes)
]

-- The players of a list of ids over the living seats that pass a test.
pub ids_where-find :
    (state : GameState) (test : Seat → Bool) (pid : String)
    → IsRoster state.seats
    → mem pid (ids_where state test) ≡ true
    → (seat : Seat) × (seat_by_public_id state pid ≡ some seat)
      × (seat.public_player_id ≡ pid)
      × (seat.alive ≡ true)
      × (test seat ≡ true)
unfolding living_seats seat_by_public_id
ids_where-find state test pid u m = ids_where-seats test state.seats pid u m
