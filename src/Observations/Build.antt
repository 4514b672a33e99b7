-- ===== src/Observations/Build.antt =====
-- `build_observation` and `build_observation_for_mode`.
use padrino.Base.{
  Bool, ◌&&◌, not, Option, none, some, List, [], map, filter, String, ◌==◌, string_eq, option_eq,
  if◌then◌else◌, Result, ok, ◌>>=◌,
}
use padrino.Game.{Role, role_eq, Faction, faction_eq, Seat, GameState}
use padrino.Legal.{legal_actions_for}
use padrino.Chain.{StoredEvent}
use padrino.Observations.{
  YouInfo, MessageLimits, InspectionResultEntry, SeatIdentity, Observation, ObservationRuleset,
  BodyError,
}
use padrino.Observations.Entries.{
  format_phase_id, filter_events, dead_players, inspection_history, role_feedback,
}

-- The ids of the other seats that pass a test.
abbrev others_where : (Seat → Bool) → GameState → Seat → List String
others_where test state seat =
    map (λ s. s.public_player_id)
      (filter (λ s. test s && not (s.public_player_id == seat.public_player_id)) state.seats)

abbrev you_of : Seat → YouInfo
you_of seat = record {
  player_id = seat.public_player_id;
  alive = seat.alive;
  role = seat.role;
  faction = seat.faction;
}

abbrev limits_of : ObservationRuleset → MessageLimits
limits_of rules = record {
  public_message_max_chars = rules.public_message_max_chars;
  private_message_max_chars = rules.private_message_max_chars;
  memory_update_max_chars = rules.memory_update_max_chars;
}

-- `inspection_history`, for a detective only.
unfoldable pub history_for :
    Seat → List StoredEvent → Result BodyError (Option (List InspectionResultEntry))
unfolding inspection_history
history_for seat event_log =
    if seat.role == Role.detective
    then (inspection_history seat event_log >>= λ entries. ok (some entries))
    else ok none

unfoldable pub build_observation :
    GameState → Seat → List StoredEvent → ObservationRuleset → String → Result BodyError Observation
unfolding dead_players filter_events history_for role_feedback legal_actions_for format_phase_id
build_observation state seat event_log rules private_memory = dead_players event_log >>= λ dead.
    filter_events state seat event_log rules >>= λ entries.
    history_for seat event_log >>= λ history. role_feedback seat event_log >>= λ feedback.
    ok (record {
      ruleset_id = rules.ruleset_id;
      game_public_id = state.game_id;
      phase = format_phase_id state.current_phase;
      day = state.current_phase.day;
      round = state.current_phase.round;
      you = you_of seat;
      alive_players = map (λ s. s.public_player_id) (filter (λ s. s.alive) state.seats);
      dead_players = dead;
      public_events = entries.0;
      private_events = entries.1;
      legal_actions = legal_actions_for state seat;
      your_private_memory = private_memory;
      message_limits = limits_of rules;
      mafia_teammates =
          if seat.faction == Faction.mafia
          then some (others_where (λ s. s.faction == Faction.mafia) state seat)
          else none;
      mason_partners =
          if seat.role == Role.mason
          then some (others_where (λ s. s.role == Role.mason) state seat)
          else none;
      previous_protected_target =
          if seat.role == Role.doctor then seat.last_protected_target else none;
      inspection_history = history;
      role_feedback = feedback;
      identity_disclosure = none;
    })

-- `tuple(seat_identities) if seat_identities is not None else ()`
abbrev disclosed : Option (List SeatIdentity) → List SeatIdentity
disclosed none = []
disclosed (some identities) = identities

-- `anonymous` is what `is_anonymous(identity_mode)` says.
unfoldable pub build_observation_for_mode :
    Bool
    → Option (List SeatIdentity)
    → GameState
    → Seat
    → List StoredEvent
    → ObservationRuleset
    → String
    → Result BodyError Observation
unfolding build_observation
build_observation_for_mode anonymous seat_identities state seat event_log rules private_memory =
    build_observation state seat event_log rules private_memory >>= λ base.
    if anonymous
    then ok (record base { identity_disclosure = none })
    else ok (record base { identity_disclosure = some (disclosed seat_identities) })
