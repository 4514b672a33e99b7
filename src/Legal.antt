-- ===== src/Legal.antt =====
-- src/padrino/core/engine/legal_actions.py: which actions a seat may submit in the current phase,
-- and against whom. `Targets` says whom they name, and
-- `Sound` and `Voting` relate them to the night resolver and to the day vote.
use padrino.Base.{
  ℕ, Bool, true, false, ◌&&◌, ◌||◌, not, Option, none, some, List, [], ◌∷◌, map, filter, mem,
  String, ◌==◌, ltb, if◌then◌else◌, string_eq, option_eq,
}
use padrino.Game.{
  Faction, faction_eq, Role, role_eq, ActionType, action_type_eq, PhaseKind, Seat, GameState,
  living_seats, janitor_clean_shots_remaining, framer_frame_shots_remaining,
}
pub mod Targets
pub mod Sound
pub mod Voting

pub record LegalActions : Type 0 where
  pub allowed_action_types : List ActionType
  pub legal_targets : List String

abbrev pub empty : LegalActions
empty = record { allowed_action_types = []; legal_targets = [] }

abbrev noop_only : LegalActions
noop_only = record { allowed_action_types = ActionType.noop ∷ []; legal_targets = [] }

abbrev pub targeted_action_types : List ActionType
targeted_action_types =
    ActionType.vote ∷ ActionType.mafia_kill ∷ ActionType.protect ∷ ActionType.investigate
    ∷ ActionType.roleblock ∷ ActionType.frame ∷ ActionType.track ∷ ActionType.watch
    ∷ ActionType.clean ∷ ActionType.serial_kill ∷ []

-- `_FUTURE_NIGHT_ROLE_ACTIONS.get(role)`
unfoldable pub future_night_role_action : Role → Option ActionType
future_night_role_action Role.mafia_roleblocker = some ActionType.roleblock
future_night_role_action Role.framer = some ActionType.frame
future_night_role_action Role.tracker = some ActionType.track
future_night_role_action Role.watcher = some ActionType.watch
future_night_role_action Role.janitor = some ActionType.clean
future_night_role_action Role.serial_killer = some ActionType.serial_kill
future_night_role_action _ = none

abbrev pub factional_kill_roles : List Role
factional_kill_roles = Role.mafia_goon ∷ Role.ninja ∷ Role.godfather ∷ []

unfoldable pub action_requires_target : ActionType → Bool
action_requires_target action_type = mem action_type targeted_action_types

abbrev pub ids_where : GameState → (Seat → Bool) → List String
ids_where state test = map (λ s. s.public_player_id) (filter test (living_seats state))

unfoldable pub living_others : GameState → Seat → List String
living_others state seat = ids_where state (λ s. not (s.public_player_id == seat.public_player_id))

-- The branch of the roles in `_FUTURE_NIGHT_ROLE_ACTIONS`, and the last line of the night phase.
unfoldable pub future_night_actions : GameState → Seat → Option ActionType → LegalActions
future_night_actions state seat none = noop_only
future_night_actions state seat (some action_type) =
    if seat.role == Role.janitor && not (ltb 0 (janitor_clean_shots_remaining seat))
    then noop_only
    else if seat.role == Role.framer && not (ltb 0 (framer_frame_shots_remaining seat))
    then noop_only
    else record {
      allowed_action_types = action_type ∷ [];
      legal_targets = living_others state seat;
    }

unfoldable pub night_actions : GameState → Seat → LegalActions
unfolding future_night_actions
night_actions state seat =
    if mem seat.role factional_kill_roles
    then record {
      allowed_action_types = ActionType.mafia_kill ∷ [];
      legal_targets = ids_where state (λ s. not (s.faction == Faction.mafia));
    }
    else if seat.role == Role.doctor
    then record {
      allowed_action_types = ActionType.protect ∷ [];
      legal_targets =
          ids_where state (λ s. not (some s.public_player_id == seat.last_protected_target));
    }
    else if seat.role == Role.detective
    then record {
      allowed_action_types = ActionType.investigate ∷ [];
      legal_targets = ids_where state (λ s. not (s.public_player_id == seat.public_player_id));
    }
    else future_night_actions state seat (future_night_role_action seat.role)

unfoldable pub phase_actions : GameState → Seat → PhaseKind → LegalActions
unfolding night_actions
phase_actions state seat PhaseKind.day_discussion = noop_only
phase_actions state seat PhaseKind.day_vote = record {
  allowed_action_types = ActionType.vote ∷ ActionType.abstain ∷ [];
  legal_targets = ids_where state (λ s. not (s.public_player_id == seat.public_player_id));
}
phase_actions state seat PhaseKind.night_0_mafia_intro =
    if seat.faction == Faction.mafia then noop_only else empty
phase_actions state seat PhaseKind.night_mafia_discussion =
    if seat.faction == Faction.mafia then noop_only else empty
phase_actions state seat PhaseKind.night_actions = night_actions state seat
phase_actions state seat _ = empty

unfoldable pub legal_actions_for : GameState → Seat → LegalActions
unfolding phase_actions
legal_actions_for state seat =
    if not seat.alive then empty else phase_actions state seat state.current_phase.kind
