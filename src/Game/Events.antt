-- ===== src/Game/Events.antt =====
-- src/padrino/core/engine/events.py: the events. Each has a sequence number, the label of its phase,
-- an actor (optional for the engine's own events) and its payload.
use padrino.Base.{ℕ, Option, List, [], ◌∷◌, String}
use padrino.Game.Payloads.{
  GameCreatedPayload, RolesAssignedPayload, PhaseStartedPayload, PublicMessageSubmittedPayload,
  PrivateMessageSubmittedPayload, VoteSubmittedPayload, MafiaKillVoteSubmittedPayload,
  ProtectSubmittedPayload, InvestigateSubmittedPayload, RoleblockSubmittedPayload,
  FrameSubmittedPayload, TrackSubmittedPayload, WatchSubmittedPayload, CleanSubmittedPayload,
  SerialKillSubmittedPayload, NightFeedbackDeliveredPayload, ActionTimedOutPayload,
  OutputTruncatedPayload, OutputInvalidPayload, DayVoteResolvedPayload, NightResolvedPayload,
  DetectiveResultDeliveredPayload, PlayerEliminatedPayload, PhaseResolvedPayload,
  GameTerminatedPayload, RoleClaimedPayload, SeatTakenOverPayload,
}

pub data Visibility : Type 0 where
  public private system : Visibility

-- The fields that every event has beside its actor and payload.
pub record Header : Type 0 where
  pub sequence : ℕ
  pub phase : String

pub data Event : Type 0 where
  game_created : Header → (actor_player_id : Option String) → GameCreatedPayload → Event
  roles_assigned : Header → (actor_player_id : Option String) → RolesAssignedPayload → Event
  phase_started : Header → (actor_player_id : Option String) → PhaseStartedPayload → Event
  public_message_submitted :
      Header → (actor_player_id : String) → PublicMessageSubmittedPayload → Event
  private_message_submitted :
      Header → (actor_player_id : String) → PrivateMessageSubmittedPayload → Event
  vote_submitted : Header → (actor_player_id : String) → VoteSubmittedPayload → Event
  mafia_kill_vote_submitted :
      Header → (actor_player_id : String) → MafiaKillVoteSubmittedPayload → Event
  protect_submitted : Header → (actor_player_id : String) → ProtectSubmittedPayload → Event
  investigate_submitted : Header → (actor_player_id : String) → InvestigateSubmittedPayload → Event
  roleblock_submitted : Header → (actor_player_id : String) → RoleblockSubmittedPayload → Event
  frame_submitted : Header → (actor_player_id : String) → FrameSubmittedPayload → Event
  track_submitted : Header → (actor_player_id : String) → TrackSubmittedPayload → Event
  watch_submitted : Header → (actor_player_id : String) → WatchSubmittedPayload → Event
  clean_submitted : Header → (actor_player_id : String) → CleanSubmittedPayload → Event
  serial_kill_submitted : Header → (actor_player_id : String) → SerialKillSubmittedPayload → Event
  night_feedback_delivered :
      Header → (actor_player_id : String) → NightFeedbackDeliveredPayload → Event
  action_timed_out : Header → (actor_player_id : String) → ActionTimedOutPayload → Event
  output_truncated : Header → (actor_player_id : String) → OutputTruncatedPayload → Event
  output_invalid : Header → (actor_player_id : String) → OutputInvalidPayload → Event
  day_vote_resolved : Header → (actor_player_id : Option String) → DayVoteResolvedPayload → Event
  night_resolved : Header → (actor_player_id : Option String) → NightResolvedPayload → Event
  detective_result_delivered :
      Header → (actor_player_id : String) → DetectiveResultDeliveredPayload → Event
  player_eliminated : Header → (actor_player_id : Option String) → PlayerEliminatedPayload → Event
  phase_resolved : Header → (actor_player_id : Option String) → PhaseResolvedPayload → Event
  game_terminated : Header → (actor_player_id : Option String) → GameTerminatedPayload → Event
  role_claimed : Header → (actor_player_id : String) → RoleClaimedPayload → Event
  seat_taken_over : Header → (actor_player_id : Option String) → SeatTakenOverPayload → Event

-- The `visibility` literal of each event class.
unfoldable pub visibility : Event → Visibility
visibility (game_created h actor payload) = Visibility.system
visibility (roles_assigned h actor payload) = Visibility.system
visibility (phase_started h actor payload) = Visibility.system
visibility (public_message_submitted h actor payload) = Visibility.public
visibility (private_message_submitted h actor payload) = Visibility.private
visibility (vote_submitted h actor payload) = Visibility.public
visibility (mafia_kill_vote_submitted h actor payload) = Visibility.private
visibility (protect_submitted h actor payload) = Visibility.private
visibility (investigate_submitted h actor payload) = Visibility.private
visibility (roleblock_submitted h actor payload) = Visibility.private
visibility (frame_submitted h actor payload) = Visibility.private
visibility (track_submitted h actor payload) = Visibility.private
visibility (watch_submitted h actor payload) = Visibility.private
visibility (clean_submitted h actor payload) = Visibility.private
visibility (serial_kill_submitted h actor payload) = Visibility.private
visibility (night_feedback_delivered h actor payload) = Visibility.private
visibility (action_timed_out h actor payload) = Visibility.system
visibility (output_truncated h actor payload) = Visibility.system
visibility (output_invalid h actor payload) = Visibility.system
visibility (day_vote_resolved h actor payload) = Visibility.public
visibility (night_resolved h actor payload) = Visibility.system
visibility (detective_result_delivered h actor payload) = Visibility.private
visibility (player_eliminated h actor payload) = Visibility.public
visibility (phase_resolved h actor payload) = Visibility.system
visibility (game_terminated h actor payload) = Visibility.public
visibility (role_claimed h actor payload) = Visibility.public
visibility (seat_taken_over h actor payload) = Visibility.system

-- The `event_type` literal of each event class.
unfoldable pub event_type : Event → String
event_type (game_created h actor payload) = "GameCreated"
event_type (roles_assigned h actor payload) = "RolesAssigned"
event_type (phase_started h actor payload) = "PhaseStarted"
event_type (public_message_submitted h actor payload) = "PublicMessageSubmitted"
event_type (private_message_submitted h actor payload) = "PrivateMessageSubmitted"
event_type (vote_submitted h actor payload) = "VoteSubmitted"
event_type (mafia_kill_vote_submitted h actor payload) = "MafiaKillVoteSubmitted"
event_type (protect_submitted h actor payload) = "ProtectSubmitted"
event_type (investigate_submitted h actor payload) = "InvestigateSubmitted"
event_type (roleblock_submitted h actor payload) = "RoleblockSubmitted"
event_type (frame_submitted h actor payload) = "FrameSubmitted"
event_type (track_submitted h actor payload) = "TrackSubmitted"
event_type (watch_submitted h actor payload) = "WatchSubmitted"
event_type (clean_submitted h actor payload) = "CleanSubmitted"
event_type (serial_kill_submitted h actor payload) = "SerialKillSubmitted"
event_type (night_feedback_delivered h actor payload) = "NightFeedbackDelivered"
event_type (action_timed_out h actor payload) = "ActionTimedOut"
event_type (output_truncated h actor payload) = "OutputTruncated"
event_type (output_invalid h actor payload) = "OutputInvalid"
event_type (day_vote_resolved h actor payload) = "DayVoteResolved"
event_type (night_resolved h actor payload) = "NightResolved"
event_type (detective_result_delivered h actor payload) = "DetectiveResultDelivered"
event_type (player_eliminated h actor payload) = "PlayerEliminated"
event_type (phase_resolved h actor payload) = "PhaseResolved"
event_type (game_terminated h actor payload) = "GameTerminated"
event_type (role_claimed h actor payload) = "RoleClaimed"
event_type (seat_taken_over h actor payload) = "SeatTakenOver"

abbrev pub event_types : List String
event_types =
    "GameCreated" ∷ "RolesAssigned" ∷ "PhaseStarted" ∷ "PublicMessageSubmitted"
    ∷ "PrivateMessageSubmitted" ∷ "VoteSubmitted" ∷ "MafiaKillVoteSubmitted" ∷ "ProtectSubmitted"
    ∷ "InvestigateSubmitted" ∷ "RoleblockSubmitted" ∷ "FrameSubmitted" ∷ "TrackSubmitted"
    ∷ "WatchSubmitted" ∷ "CleanSubmitted" ∷ "SerialKillSubmitted" ∷ "NightFeedbackDelivered"
    ∷ "ActionTimedOut" ∷ "OutputTruncated" ∷ "OutputInvalid" ∷ "DayVoteResolved" ∷ "NightResolved"
    ∷ "DetectiveResultDelivered" ∷ "PlayerEliminated" ∷ "PhaseResolved" ∷ "GameTerminated"
    ∷ "RoleClaimed" ∷ "SeatTakenOver" ∷ []
