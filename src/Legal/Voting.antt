-- ===== src/Legal/Voting.antt =====
-- Legal votes and the ballots that the day vote counts.
use padrino.Base.{
  ◌≡◌, refl, ◌↔◌, Bool, true, ◌&&◌, not, none, some, List, [], ◌∷◌, map, filter, mem, String, ◌==◌,
  Dict, get, if◌then◌else◌, string_eq, arith, Bool-cases, inl, inr,
}
use padrino.Game.{ActionType, action_type_eq, PhaseKind, Seat, GameState, Action, living_seats}
use padrino.DayVote.{living_ids, ballot_of, ballot_action, ballot_target}
use padrino.Legal.{legal_actions_for, phase_actions, empty}

others_mem :
    (pid target : String) (seats : List Seat)
    → mem target (
        map
          (λ s. s.public_player_id)
          (filter (λ s. not (s.public_player_id == pid)) (filter (λ s. s.alive) seats)))
      ≡ not (target == pid)
        && mem target (map (λ s. s.public_player_id) (filter (λ s. s.alive) seats))
unfolding mem filter
others_mem pid target [] = ground arith
others_mem pid target (s ∷ ss) = ground (arith, others_mem pid target ss)

module _ (state : GameState) (seat : Seat) (target : String) where
  votable : Bool
  votable =
      seat.alive && (not (target == seat.public_player_id) && mem target (living_ids state.seats))

  legal_vote :
      (kind : PhaseKind)
      → kind ≡ PhaseKind.day_vote
      → mem target (if not seat.alive then empty else phase_actions state seat kind).legal_targets
        ≡ votable
  unfolding votable phase_actions living_seats living_ids mem
  legal_vote kind day = rw day (elim (Bool-cases seat.alive) [
    | inl e ↦ rw e (others_mem seat.public_player_id target state.seats)
    | inr e ↦ rw e refl
  ])

  counted_vote :
      (submissions : Dict String Action) (action : Action)
      → get seat.public_player_id submissions ≡ some action
      → action.type ≡ ActionType.vote
      → action.target ≡ some target
      → ballot_of (living_ids state.seats) submissions seat
        ≡ (if votable then some target else none)
  unfolding votable ballot_of ballot_action ballot_target
  counted_vote submissions action got vote named = ground (arith, got, vote, named)

-- In the phase DAY_VOTE, a target is legal for a seat exactly if the seat's submitted vote for that
-- target is counted.
pub legal_actions_for-ballot :
    (state : GameState) (seat : Seat) (submissions : Dict String Action) (action : Action)
    (target : String)
    → state.current_phase.kind ≡ PhaseKind.day_vote
    → get seat.public_player_id submissions ≡ some action
    → action.type ≡ ActionType.vote
    → action.target ≡ some target
    → (mem target (legal_actions_for state seat).legal_targets ≡ true)
      ↔ (ballot_of (living_ids state.seats) submissions seat ≡ some target)
unfolding legal_actions_for
legal_actions_for-ballot state seat submissions action target day got vote named =
    let legal = legal_vote state seat target state.current_phase.kind day in
    let counted = counted_vote state seat target submissions action got vote named in
    (λ m. ground (arith, legal, counted, m), λ b. ground (arith, legal, counted, b))
