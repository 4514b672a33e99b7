-- ===== src/Game/State.antt =====
-- src/padrino/core/engine/state.py and actions.py. Player ids are texts; days, rounds and seat
-- indices are natural numbers, and a stored shot count is an integer, since the code clips it at 0.
use padrino.Base.{
  ℕ, Bool, ◌&&◌, Option, none, some, List, [], ◌∷◌, String, ◌==◌, filter, find, count_if, Dict,
  bump, if◌then◌else◌, string_eq,
}
use padrino.Game.Enums.{Faction, Role, ActionType, SeatKind, PhaseKind, faction_eq, role_eq}

pub data ℤ : Type 0 where
  pos : ℕ → ℤ
  negsuc : ℕ → ℤ

pub data Finding : Type 0 where
  mafia town : Finding

pub record QueuedInspection : Type 0 where
  pub target : String
  pub finding : Finding

pub record Seat : Type 0 where
  pub public_player_id : String
  pub seat_index : ℕ
  pub role : Role
  pub faction : Faction
  pub alive : Bool
  pub death_phase : Option String
  pub last_protected_target : Option String
  pub queued_inspection_result : Option QueuedInspection
  pub seat_kind : Option SeatKind
  pub janitor_clean_shots_remaining : Option ℤ
  pub framer_frame_shots_remaining : Option ℤ

pub record Phase : Type 0 where
  pub kind : PhaseKind
  pub day : ℕ
  pub round : ℕ

pub record GameState : Type 0 where
  pub ruleset_id : String
  pub game_id : String
  pub game_seed : String
  pub current_phase : Phase
  pub seats : List Seat
  pub day : ℕ
  pub terminal_result : Option String
  pub terminal_reason : Option String
  pub win_condition_triggers : List String

pub record Action : Type 0 where
  pub type : ActionType
  pub target : Option String

abbrev janitor_clean_shot_cap : ℕ
janitor_clean_shot_cap = 1

abbrev framer_frame_shot_cap : ℕ
framer_frame_shot_cap = 1

unfoldable pub living_seats : GameState → List Seat
living_seats state = filter (λ s. s.alive) state.seats

unfoldable pub living_seats_by_faction : GameState → Faction → List Seat
living_seats_by_faction state faction = filter (λ s. s.alive && s.faction == faction) state.seats

unfoldable pub seat_by_public_id : GameState → String → Option Seat
seat_by_public_id state public_player_id =
    find (λ s. s.public_player_id == public_player_id) state.seats

unfoldable pub alive_count_by_faction : GameState → Faction → ℕ
alive_count_by_faction state faction = count_if (λ s. s.alive && s.faction == faction) state.seats

-- The loop of `alive_counts_by_faction`, from the counts so far.
unfoldable pub count_factions : List Seat → Dict Faction ℕ → Dict Faction ℕ
count_factions [] counts = counts
count_factions (s ∷ seats) counts =
    count_factions seats (if s.alive then bump s.faction 1 counts else counts)

unfoldable pub alive_counts_by_faction : GameState → Dict Faction ℕ
unfolding count_factions
alive_counts_by_faction state = count_factions state.seats []

-- `max(n, 0)`
abbrev max_zero : ℤ → ℕ
max_zero (pos n) = n
max_zero (negsuc n) = 0

abbrev shots_or : ℕ → Option ℤ → ℕ
shots_or cap none = cap
shots_or cap (some n) = max_zero n

unfoldable pub janitor_clean_shots_remaining : Seat → ℕ
janitor_clean_shots_remaining seat =
    if seat.role == Role.janitor
    then shots_or janitor_clean_shot_cap seat.janitor_clean_shots_remaining
    else 0

unfoldable pub framer_frame_shots_remaining : Seat → ℕ
framer_frame_shots_remaining seat =
    if seat.role == Role.framer
    then shots_or framer_frame_shot_cap seat.framer_frame_shots_remaining
    else 0
