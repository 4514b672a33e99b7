-- ===== src/Game/Payloads.antt =====
-- src/padrino/core/engine/events.py: the payloads of the event catalogue, field for field.
use padrino.Base.{ℕ, Bool, Option, List, String, Dict}
use padrino.Game.Enums.{Faction, Role, SeatKind}
use padrino.Game.State.{Finding}

pub record SeatAssignment : Type 0 where
  pub public_player_id : String
  pub seat_index : ℕ
  pub role : Role
  pub faction : Faction
  pub seat_kind : Option SeatKind

pub record GameCreatedPayload : Type 0 where
  pub ruleset_id : String
  pub game_id : String
  pub game_seed : String
  pub player_count : ℕ

pub record RolesAssignedPayload : Type 0 where
  pub assignments : List SeatAssignment

pub record PhaseStartedPayload : Type 0 where
  pub phase_kind : String
  pub day : ℕ
  pub round : ℕ

pub record PublicMessageSubmittedPayload : Type 0 where
  pub text : String
  pub round_index : Option ℕ
  pub content_ref : Option String

pub record PrivateMessageSubmittedPayload : Type 0 where
  pub text : String
  pub channel_id : String
  pub content_ref : Option String

pub record VoteSubmittedPayload : Type 0 where
  pub target : Option String
  pub is_abstain : Bool

pub record MafiaKillVoteSubmittedPayload : Type 0 where
  pub target : Option String

pub record ProtectSubmittedPayload : Type 0 where
  pub target : Option String

pub record InvestigateSubmittedPayload : Type 0 where
  pub target : Option String

pub record RoleblockSubmittedPayload : Type 0 where
  pub target : Option String

pub record FrameSubmittedPayload : Type 0 where
  pub target : Option String

pub record TrackSubmittedPayload : Type 0 where
  pub target : Option String

pub record WatchSubmittedPayload : Type 0 where
  pub target : Option String

pub record CleanSubmittedPayload : Type 0 where
  pub target : Option String

pub record SerialKillSubmittedPayload : Type 0 where
  pub target : Option String

pub record NightFeedbackDeliveredPayload : Type 0 where
  pub code : String
  pub target : Option String
  pub finding : Option Finding
  pub visited_player_ids : List String
  pub visitor_player_ids : List String

pub record ActionTimedOutPayload : Type 0 where
  pub expected_action_type : String
  pub defaulted_to : String

pub record OutputTruncatedPayload : Type 0 where
  pub reason : String
  pub raw_byte_length : ℕ

pub record OutputInvalidPayload : Type 0 where
  pub reason : String
  pub validation_errors : List String

pub record DayVoteResolvedPayload : Type 0 where
  pub eliminated : Option String
  pub vote_tally : Dict String ℕ
  pub reason : String
  pub voter_weights : Dict String ℕ
  pub total_vote_weight : Option ℕ
  pub hammer_threshold : Option ℕ

pub record NightResolvedPayload : Type 0 where
  pub eliminated : Option String
  pub protected : Option String
  pub mafia_kill_target : Option String
  pub eliminated_player_ids : List String
  pub serial_kill_target : Option String
  pub cleaned_deaths : List String
  pub clean_spent_actor_ids : List String
  pub framed_targets : List String
  pub frame_spent_actor_ids : List String

pub record DetectiveResultDeliveredPayload : Type 0 where
  pub target : String
  pub finding : Finding

pub record PlayerEliminatedPayload : Type 0 where
  pub public_player_id : String
  pub cause : String
  pub role : Option Role
  pub faction : Option Faction

pub record PhaseResolvedPayload : Type 0 where
  pub resolved_phase : String

pub record GameTerminatedPayload : Type 0 where
  pub winner : String
  pub reason : String

pub record RoleClaimedPayload : Type 0 where
  pub claimed_role : String

pub record SeatTakenOverPayload : Type 0 where
  pub public_player_id : String
  pub day : ℕ
  pub phase : String
  pub reason : String
  pub replacement_agent_build_ref : String
