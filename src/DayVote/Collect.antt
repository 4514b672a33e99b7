-- ===== src/DayVote/Collect.antt =====
-- What the loop over the seats collects.
use padrino.Base.{
  ◌+◌, ◌≤◌, ◌≡◌, refl, ◌≢◌, true, Option, none, some, List, [], ◌∷◌, String, mem, get, Dict,
  if◌then◌else◌, string_eq, arith, sum_values, sum_values-bump, has, has-bump, IsUnique,
  IsUnique-bump, inl, inr, ◌⊎◌,
}
use padrino.Game.{Seat, GameState, Action}
use padrino.DayVote.{
  vote_weight_for, living_weight, total_vote_weight, living_ids, ballot_target, ballot_action,
  ballot_of, Ballots, cast, collect, ballots,
}

cast_weight_of :
    (seat : Seat) (o : Option String) (b : Ballots)
    → ((target : String) → o ≡ some target → seat.alive ≡ true)
    → sum_values (cast seat o b).tally
      ≤ sum_values b.tally + (if seat.alive then vote_weight_for seat else 0)
unfolding cast
cast_weight_of seat none b h = omega arith
cast_weight_of seat (some target) b h =
    ground (arith, h target refl, sum_values-bump target (vote_weight_for seat) b.tally)

cast-has :
    (j : String) (seat : Seat) (o : Option String) (b : Ballots)
    → has j (cast seat o b).tally ≡ true
    → (has j b.tally ≡ true) ⊎ (o ≡ some j)
unfolding cast
cast-has j seat none b h = inl h
cast-has j seat (some target) b h = ground (arith, has-bump target j (vote_weight_for seat) b.tally)

cast-IsUnique :
    (seat : Seat) (o : Option String) (b : Ballots)
    → IsUnique b.tally
    → IsUnique (cast seat o b).tally
unfolding cast
cast-IsUnique seat none b u = u
cast-IsUnique seat (some target) b u = IsUnique-bump target (vote_weight_for seat) b.tally u

module _ (living : List String) (submissions : Dict String Action) where
  target_living :
      (seat : Seat) (o : Option String) (target : String)
      → ballot_target living seat o ≡ some target
      → (mem target living ≡ true) × (target ≢ seat.public_player_id)
  unfolding ballot_target
  target_living seat none target h = cc
  target_living seat (some t) target h = (ground arith, λ same. ground arith)

  action_living :
      (seat : Seat) (o : Option Action) (target : String)
      → ballot_action living seat o ≡ some target
      → (mem target living ≡ true) × (target ≢ seat.public_player_id)
  unfolding ballot_action
  action_living seat none target h = cc
  action_living seat (some a) target h = target_living seat a.target target (ground arith)

  pub ballot_living :
      (seat : Seat) (target : String)
      → ballot_of living submissions seat ≡ some target
      → (mem target living ≡ true) × (target ≢ seat.public_player_id) × (seat.alive ≡ true)
  unfolding ballot_of
  ballot_living seat target h =
      let alive : seat.alive ≡ true = ground arith in
      let voted =
        action_living seat (get seat.public_player_id submissions) target (ground arith) in
      (voted.0, voted.1, alive)

  cast_weight :
      (seat : Seat) (b : Ballots)
      → sum_values (cast seat (ballot_of living submissions seat) b).tally
        ≤ sum_values b.tally + (if seat.alive then vote_weight_for seat else 0)
  cast_weight seat b =
      cast_weight_of seat (ballot_of living submissions seat) b
        (λ target h. (ballot_living seat target h).2)

  collect_weight :
      (seats : List Seat) (b : Ballots)
      → sum_values (collect living submissions seats b).tally
        ≤ sum_values b.tally + living_weight seats
  unfolding collect living_weight
  collect_weight [] b = omega arith
  collect_weight (seat ∷ seats) b = omega (
    arith,
    collect_weight seats (cast seat (ballot_of living submissions seat) b),
    cast_weight seat b,
  )

  -- Every key of the tally is a living player.
  collect_keys :
      (j : String) (seats : List Seat) (b : Ballots)
      → (has j b.tally ≡ true → mem j living ≡ true)
      → has j (collect living submissions seats b).tally ≡ true
      → mem j living ≡ true
  unfolding collect
  collect_keys j [] b h = h
  collect_keys j (seat ∷ seats) b h =
      let o = ballot_of living submissions seat in
      collect_keys j seats (cast seat o b) λ k. elim (cast-has j seat o b k) [
        | inl old ↦ h old
        | inr new ↦ (ballot_living seat j new).0
      ]

  collect-IsUnique :
      (seats : List Seat) (b : Ballots)
      → IsUnique b.tally
      → IsUnique (collect living submissions seats b).tally
  unfolding collect
  collect-IsUnique [] b u = u
  collect-IsUnique (seat ∷ seats) b u =
      let o = ballot_of living submissions seat in
      collect-IsUnique seats (cast seat o b) (cast-IsUnique seat o b u)

module _ (state : GameState) (submissions : Dict String Action) where
  -- The votes counted never weigh more than the living players.
  pub ballots_weight : sum_values (ballots state submissions).tally ≤ total_vote_weight state
  unfolding ballots total_vote_weight sum_values
  ballots_weight =
      let start : Ballots = record { tally = []; voter_weights = [] } in
      omega (arith, collect_weight (living_ids state.seats) submissions state.seats start)

  -- Only living players have votes.
  pub ballots_keys :
      (j : String)
      → has j (ballots state submissions).tally ≡ true
      → mem j (living_ids state.seats) ≡ true
  unfolding ballots has
  ballots_keys j =
      collect_keys (living_ids state.seats) submissions j state.seats
        (record { tally = []; voter_weights = [] }) (λ h. cc)

  pub ballots-IsUnique : IsUnique (ballots state submissions).tally
  unfolding ballots
  ballots-IsUnique =
      collect-IsUnique (living_ids state.seats) submissions state.seats
        (record { tally = []; voter_weights = [] }) tt
