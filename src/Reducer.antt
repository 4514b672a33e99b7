-- ===== src/Reducer.antt =====
-- src/padrino/core/engine/reducer.py and replay.py: the state transition of one event, and the fold
-- of a log. A `ValueError` is an `err`.

pub mod Firewall
pub mod Seats
pub mod Roster
pub mod Shots
pub mod Provenance
use padrino.Base.{
  ℕ, ◌-◌, Bool, true, false, ◌&&◌, ◌||◌, Option, none, some, List, [], ◌∷◌, ◌++◌, map, String, ◌==◌,
  mem, is_empty, if◌then◌else◌, string_eq, Result, ok, err, ◌>>=◌,
}
use padrino.Game.{
  Role, PhaseKind, role_eq, ℤ, pos, QueuedInspection, Seat, Phase, GameState,
  janitor_clean_shots_remaining, framer_frame_shots_remaining, SeatAssignment, NightResolvedPayload,
  PlayerEliminatedPayload, PhaseStartedPayload, Event, Header, game_created, roles_assigned,
  phase_started, protect_submitted, night_resolved, detective_result_delivered, player_eliminated,
  game_terminated, event_type, public_message_submitted, private_message_submitted, vote_submitted,
  mafia_kill_vote_submitted, investigate_submitted, roleblock_submitted, frame_submitted,
  track_submitted, watch_submitted, clean_submitted, serial_kill_submitted,
  night_feedback_delivered, action_timed_out, output_truncated, output_invalid, day_vote_resolved,
  phase_resolved, seat_taken_over,
}

pub data ReducerError : Type 0 where
  -- `PhaseKind(value)` on a text that is no member
  invalid_phase_kind : String → ReducerError
  unknown_event_type : String → ReducerError

abbrev pub jester_day_voted_out_trigger : String
jester_day_voted_out_trigger = "JESTER_DAY_VOTED_OUT"

abbrev pub day_vote_causes : List String
day_vote_causes = "day_vote" ∷ "DAY_VOTE" ∷ []

abbrev pub initial_state : GameState
initial_state = record {
  ruleset_id = "";
  game_id = "";
  game_seed = "";
  current_phase = record { kind = PhaseKind.setup; day = 0; round = 0 };
  seats = [];
  day = 0;
  terminal_result = none;
  terminal_reason = none;
  win_condition_triggers = [];
}

-- The seats of `_update_seat`: `updates` is what `model_copy` writes.
unfoldable pub update_seats : String → (Seat → Seat) → List Seat → List Seat
update_seats public_player_id updates =
    map (λ s. if s.public_player_id == public_player_id then updates s else s)

unfoldable pub update_seat : GameState → String → (Seat → Seat) → GameState
update_seat state public_player_id updates = record state {
  seats = update_seats public_player_id updates state.seats;
}

-- The body of the loop of `_spend_janitor_clean_shots` for one seat.
unfoldable pub spend_clean_shot : List String → Seat → Seat
spend_clean_shot spent seat =
    if mem seat.public_player_id spent && seat.role == Role.janitor
    then record seat {
      janitor_clean_shots_remaining = some (pos (janitor_clean_shots_remaining seat - 1));
    }
    else seat

-- The flag `changed` decides only between a state and an equal copy of it, so it is left out.
unfoldable pub spend_janitor_clean_shots : GameState → List String → GameState
spend_janitor_clean_shots state actor_ids =
    if is_empty actor_ids
    then state
    else record state { seats = map (spend_clean_shot actor_ids) state.seats }

unfoldable pub spend_frame_shot : List String → Seat → Seat
spend_frame_shot spent seat =
    if mem seat.public_player_id spent && seat.role == Role.framer
    then record seat {
      framer_frame_shots_remaining = some (pos (framer_frame_shots_remaining seat - 1));
    }
    else seat

unfoldable pub spend_framer_frame_shots : GameState → List String → GameState
spend_framer_frame_shots state actor_ids =
    if is_empty actor_ids
    then state
    else record state { seats = map (spend_frame_shot actor_ids) state.seats }

unfoldable pub add_win_condition_trigger : GameState → String → GameState
add_win_condition_trigger state trigger =
    if mem trigger state.win_condition_triggers
    then state
    else record state { win_condition_triggers = state.win_condition_triggers ++ trigger ∷ [] }

abbrev is_jester : Option Role → Bool
is_jester none = false
is_jester (some role) = role == Role.jester

unfoldable pub jester_day_vote_triggered : PlayerEliminatedPayload → Bool
jester_day_vote_triggered payload = is_jester payload.role && mem payload.cause day_vote_causes

-- `Seat(...)` of the `RolesAssigned` branch, with the defaults of the other fields.
unfoldable pub seat_of : SeatAssignment → Seat
seat_of a = record {
  public_player_id = a.public_player_id;
  seat_index = a.seat_index;
  role = a.role;
  faction = a.faction;
  alive = true;
  death_phase = none;
  last_protected_target = none;
  queued_inspection_result = none;
  seat_kind = a.seat_kind;
  janitor_clean_shots_remaining = none;
  framer_frame_shots_remaining = none;
}

-- `PhaseKind(value)`
unfoldable pub phase_kind_of : String → Option PhaseKind
phase_kind_of value =
    if value == "SETUP"
    then some PhaseKind.setup
    else if value == "NIGHT_0_MAFIA_INTRO"
    then some PhaseKind.night_0_mafia_intro
    else if value == "DAY_DISCUSSION"
    then some PhaseKind.day_discussion
    else if value == "DAY_VOTE"
    then some PhaseKind.day_vote
    else if value == "NIGHT_MAFIA_DISCUSSION"
    then some PhaseKind.night_mafia_discussion
    else if value == "NIGHT_ACTIONS"
    then some PhaseKind.night_actions
    else if value == "TERMINAL"
    then some PhaseKind.terminal
    else none

-- The `PhaseStarted` branch, after the kind is parsed.
unfoldable pub start_phase :
    GameState → PhaseStartedPayload → Option PhaseKind → Result ReducerError GameState
start_phase state payload none = err (invalid_phase_kind payload.phase_kind)
start_phase state payload (some kind) = ok (record state {
  current_phase = record { kind = kind; day = payload.day; round = payload.round };
  day = payload.day;
})

abbrev pub die : String → Seat → Seat
die phase s = record s { alive = false; death_phase = some phase }

-- The `PlayerEliminated` branch.
unfoldable pub eliminate : GameState → Header → PlayerEliminatedPayload → GameState
unfolding update_seat
eliminate state h payload =
    let state' = update_seat state payload.public_player_id (die h.phase) in
    if jester_day_vote_triggered payload
    then add_win_condition_trigger state' jester_day_voted_out_trigger
    else state'

-- The `NightResolved` branch.
unfoldable pub resolve_night_shots : GameState → NightResolvedPayload → GameState
resolve_night_shots state payload =
    spend_framer_frame_shots (spend_janitor_clean_shots state payload.clean_spent_actor_ids)
      payload.frame_spent_actor_ids

-- `isinstance(event, _RECORDED_ONLY)`
unfoldable pub is_recorded_only : Event → Bool
is_recorded_only (public_message_submitted h actor payload) = true
is_recorded_only (private_message_submitted h actor payload) = true
is_recorded_only (vote_submitted h actor payload) = true
is_recorded_only (mafia_kill_vote_submitted h actor payload) = true
is_recorded_only (investigate_submitted h actor payload) = true
is_recorded_only (roleblock_submitted h actor payload) = true
is_recorded_only (frame_submitted h actor payload) = true
is_recorded_only (track_submitted h actor payload) = true
is_recorded_only (watch_submitted h actor payload) = true
is_recorded_only (clean_submitted h actor payload) = true
is_recorded_only (serial_kill_submitted h actor payload) = true
is_recorded_only (night_feedback_delivered h actor payload) = true
is_recorded_only (action_timed_out h actor payload) = true
is_recorded_only (output_truncated h actor payload) = true
is_recorded_only (output_invalid h actor payload) = true
is_recorded_only (day_vote_resolved h actor payload) = true
is_recorded_only (night_resolved h actor payload) = true
is_recorded_only (phase_resolved h actor payload) = true
is_recorded_only (seat_taken_over h actor payload) = true
is_recorded_only _ = false

unfoldable pub apply_event : GameState → Event → Result ReducerError GameState
apply_event state (game_created h actor payload) = ok (record state {
  ruleset_id = payload.ruleset_id;
  game_id = payload.game_id;
  game_seed = payload.game_seed;
})
apply_event state (roles_assigned h actor payload) =
    ok (record state { seats = map seat_of payload.assignments })
apply_event state (phase_started h actor payload) =
    start_phase state payload (phase_kind_of payload.phase_kind)
apply_event state (player_eliminated h actor payload) = ok (eliminate state h payload)
apply_event state (detective_result_delivered h actor payload) =
    let queued : QueuedInspection = record { target = payload.target; finding = payload.finding } in
    ok (update_seat state actor (λ s. record s { queued_inspection_result = some queued }))
apply_event state (protect_submitted h actor payload) =
    ok (update_seat state actor (λ s. record s { last_protected_target = payload.target }))
apply_event state (night_resolved h actor payload) = ok (resolve_night_shots state payload)
apply_event state (game_terminated h actor payload) =
    ok (record state {
      terminal_result = some payload.winner;
      terminal_reason = some payload.reason;
    })
apply_event state event =
    if is_recorded_only event then ok state else err (unknown_event_type (event_type event))

-- The loop of `replay_events`.
unfoldable pub replay_from : GameState → List Event → Result ReducerError GameState
replay_from state [] = ok state
replay_from state (event ∷ events) = apply_event state event >>= λ state'. replay_from state' events

unfoldable pub replay_events : List Event → Result ReducerError GameState
unfolding replay_from
replay_events events = replay_from initial_state events
