-- ===== src/Examples/Votes.antt =====
-- A day vote on the table, and legal actions on it.
use padrino.Base.{
  find, ℕ, ◌≡◌, ◌↔◌, refl, true, some, [], ◌∷◌, String, Dict, mem, tally_of, get, put, filter, bump,
  max_value, keys_at, IsUniquePlurality, String-discrete, dec_option, string_eq, arith,
}
use padrino.Game.{
  Faction-discrete, Role-discrete, ActionType-discrete, ActionType, action_type_eq, PhaseKind,
  GameState, Action, living_seats, seat_by_public_id, framer_frame_shots_remaining,
}
use padrino.DayVote.{
  resolve_day_vote, hammer_threshold_for, total_vote_weight, living_weight, vote_weight_for,
  living_ids, ballots, collect, cast, ballot_of, ballot_action, ballot_target, decide_tally,
  decide_winners,
}
use padrino.DayVote.Outcome.{resolve_day_vote-eliminated, resolve_day_vote-hammer}
use padrino.Legal.{
  legal_actions_for, phase_actions, night_actions, future_night_actions, living_others,
  future_night_role_action,
}
use padrino.Legal.Sound.{IsSeated, IsAccepted, legal_actions_for-is_valid}
use padrino.Legal.Voting.{legal_actions_for-ballot}
use padrino.Examples.Table.{state_of, action_of, goon, doctor, villager, framer, night_state}

abbrev day_state : GameState
day_state = state_of PhaseKind.day_vote (goon ∷ doctor ∷ villager ∷ [])

abbrev votes : Dict String Action
votes =
    ("P01", action_of ActionType.vote "P07")
    ∷ ("P05", action_of ActionType.vote "P01")
    ∷ ("P07", action_of ActionType.vote "P01")
    ∷ []

abbrev two : ℕ
two = 2

votes_facts :
    ((resolve_day_vote day_state votes).eliminated ≡ some "P01")
    × (hammer_threshold_for day_state ≡ two)
    × (tally_of "P01" (resolve_day_vote day_state votes).vote_tally ≡ two)
unfolding resolve_day_vote hammer_threshold_for total_vote_weight living_weight vote_weight_for
    living_ids ballots collect cast ballot_of ballot_action ballot_target decide_tally
    decide_winners mem tally_of get put filter bump max_value keys_at String-discrete Role-discrete
    ActionType-discrete dec_option
votes_facts = (refl, refl, refl)

resolve_day_vote-eliminated_example :
    ((resolve_day_vote day_state votes).eliminated ≡ some "P01")
    ↔ IsUniquePlurality (resolve_day_vote day_state votes).vote_tally "P01"
resolve_day_vote-eliminated_example = resolve_day_vote-eliminated day_state votes "P01"

resolve_day_vote-hammer_example :
    ((resolve_day_vote day_state votes).eliminated ≡ some "P01")
    × ((resolve_day_vote day_state votes).reason ≡ "unique_plurality")
resolve_day_vote-hammer_example =
    resolve_day_vote-hammer day_state votes "P01" (omega (arith, votes_facts.1, votes_facts.2))

legal_facts :
    (mem "P05" (legal_actions_for night_state framer).legal_targets ≡ true)
    × (mem ActionType.frame (legal_actions_for night_state framer).allowed_action_types ≡ true)
unfolding legal_actions_for phase_actions night_actions future_night_actions
    future_night_role_action living_others living_seats mem filter framer_frame_shots_remaining
    String-discrete Role-discrete ActionType-discrete Faction-discrete
legal_facts = (refl, refl)

framer-IsSeated : IsSeated night_state framer
unfolding mem seat_by_public_id find String-discrete Role-discrete
framer-IsSeated =
    ((refl, (refl, (refl, (refl, (refl, (refl, (refl, (refl, (refl, tt))))))))), refl, λ k. refl)

legal_actions_for-is_valid_example : IsAccepted night_state framer ActionType.frame "P05"
legal_actions_for-is_valid_example =
    legal_actions_for-is_valid night_state framer ActionType.frame "P05" (framer-IsSeated.0)
      (framer-IsSeated.1) (framer-IsSeated.2) refl (legal_facts.1) (legal_facts.0)

legal_actions_for-ballot_example :
    (mem "P01" (legal_actions_for day_state doctor).legal_targets ≡ true)
    ↔ (ballot_of (living_ids day_state.seats) votes doctor ≡ some "P01")
legal_actions_for-ballot_example =
    legal_actions_for-ballot day_state doctor votes (action_of ActionType.vote "P01") "P01" refl
      (unfold get String-discrete in refl) refl refl
