-- ===== src/DayVote.antt =====
-- src/padrino/core/engine/resolvers/day_vote.py: the day vote. `submissions` is a dictionary from
-- player ids to actions; invalid ballots count as abstentions.
pub mod Collect
pub mod Outcome
use padrino.Base.{
  ℕ, ◌+◌, ◌/◌, Bool, true, false, ◌&&◌, ◌||◌, not, Option, none, some, List, [], ◌∷◌, map, String,
  ◌==◌, filter, mem, get, put, bump, max_value, keys_at, Dict, if◌then◌else◌, string_eq,
}
use padrino.Game.{Role, role_eq, ActionType, action_type_eq, Seat, GameState, Action}

abbrev pub reason_unique_plurality : String
reason_unique_plurality = "unique_plurality"

abbrev pub reason_tie : String
reason_tie = "tie"

abbrev reason_all_abstain : String
reason_all_abstain = "all_abstain"

pub record DayVoteResult : Type 0 where
  pub eliminated : Option String
  pub vote_tally : Dict String ℕ
  pub reason : String
  pub voter_weights : Dict String ℕ
  pub total_vote_weight : ℕ
  pub hammer_threshold : ℕ

unfoldable pub vote_weight_for : Seat → ℕ
vote_weight_for seat = if seat.role == Role.mayor then 2 else 1

-- `sum(vote_weight_for(seat) for seat in seats if seat.alive)`
unfoldable pub living_weight : List Seat → ℕ
living_weight [] = 0
living_weight (seat ∷ seats) =
    (if seat.alive then vote_weight_for seat else 0) + living_weight seats

unfoldable pub total_vote_weight : GameState → ℕ
unfolding living_weight
total_vote_weight state = living_weight state.seats

unfoldable pub hammer_threshold_for : GameState → ℕ
hammer_threshold_for state = total_vote_weight state / 2 + 1

-- The set `living_ids`.
unfoldable pub living_ids : List Seat → List String
living_ids seats = map (λ s. s.public_player_id) (filter (λ s. s.alive) seats)

-- The test on an action's target: none, the voter itself, or nobody living.
unfoldable pub ballot_target : List String → Seat → Option String → Option String
ballot_target living seat none = none
ballot_target living seat (some target) =
    if target == seat.public_player_id || not (mem target living) then none else some target

unfoldable pub ballot_action : List String → Seat → Option Action → Option String
unfolding ballot_target
ballot_action living seat none = none
ballot_action living seat (some action) =
    if action.type == ActionType.vote then ballot_target living seat action.target else none

-- Whom a seat votes for, where the loop of `resolve_day_vote` does not `continue`.
unfoldable pub ballot_of : List String → Dict String Action → Seat → Option String
unfolding ballot_action
ballot_of living submissions seat =
    if seat.alive then ballot_action living seat (get seat.public_player_id submissions) else none

-- The two dictionaries that the loop fills.
pub record Ballots : Type 0 where
  pub tally : Dict String ℕ
  pub voter_weights : Dict String ℕ

unfoldable pub cast : Seat → Option String → Ballots → Ballots
cast seat none b = b
cast seat (some target) b = record {
  tally = bump target (vote_weight_for seat) b.tally;
  voter_weights = put seat.public_player_id (vote_weight_for seat) b.voter_weights;
}

unfoldable pub collect : List String → Dict String Action → List Seat → Ballots → Ballots
unfolding cast
collect living submissions [] b = b
collect living submissions (seat ∷ seats) b =
    collect living submissions seats (cast seat (ballot_of living submissions seat) b)

unfoldable pub ballots : GameState → Dict String Action → Ballots
unfolding collect
ballots state submissions =
    collect (living_ids state.seats) submissions state.seats
      (record { tally = []; voter_weights = [] })

-- What the keys with the most votes make of the vote: `len(winners) == 1` or not.
unfoldable pub decide_winners : List String → Ballots → (total threshold : ℕ) → DayVoteResult
decide_winners (winner ∷ []) b total threshold = record {
  eliminated = some winner;
  vote_tally = b.tally;
  reason = reason_unique_plurality;
  voter_weights = b.voter_weights;
  total_vote_weight = total;
  hammer_threshold = threshold;
}
decide_winners _ b total threshold = record {
  eliminated = none;
  vote_tally = b.tally;
  reason = reason_tie;
  voter_weights = b.voter_weights;
  total_vote_weight = total;
  hammer_threshold = threshold;
}

unfoldable pub decide_tally : Dict String ℕ → Ballots → (total threshold : ℕ) → DayVoteResult
unfolding decide_winners
decide_tally [] b total threshold = record {
  eliminated = none;
  vote_tally = [];
  reason = reason_all_abstain;
  voter_weights = [];
  total_vote_weight = total;
  hammer_threshold = threshold;
}
decide_tally (entry ∷ entries) b total threshold =
    let tally = entry ∷ entries in
    decide_winners (keys_at (max_value tally) tally) b total threshold

unfoldable pub resolve_day_vote : GameState → Dict String Action → DayVoteResult
unfolding decide_tally
resolve_day_vote state submissions =
    let b = ballots state submissions in
    decide_tally b.tally b (total_vote_weight state) (total_vote_weight state / 2 + 1)
