-- ===== src/Nar/Current.antt =====
-- nar.py: submissions as intents, and the resolvers of the current roles (resolvers/mafia_kill.py,
-- doctor_protect.py, detective.py and night.py), which call the matrix.
use padrino.Base.{
  ℕ, ◌||◌, not, Option, none, some, List, [], ◌∷◌, String, ◌==◌, find, is_some, Dict, get,
  if◌then◌else◌, string_eq, option_eq,
}
use padrino.Game.{Role, role_eq, ActionType, action_type_eq, Seat, GameState, Action}
use padrino.Nar.Matrix.{NightActionKind}
use padrino.Nar.Intents.{NightActionIntent, alive_seat}
use padrino.Nar.Tiers.{ProtectOutcome, InvestigationOutcome}
use padrino.Nar.Night.{MatrixNightResolution, resolve_night_actions}

-- The chain of tests on `action.type`.
unfoldable pub kind_of_action : ActionType → Option NightActionKind
kind_of_action ActionType.mafia_kill = some NightActionKind.factional_kill
kind_of_action ActionType.protect = some NightActionKind.protect
kind_of_action ActionType.investigate = some NightActionKind.investigate
kind_of_action ActionType.roleblock = some NightActionKind.roleblock
kind_of_action ActionType.frame = some NightActionKind.frame
kind_of_action ActionType.track = some NightActionKind.track
kind_of_action ActionType.watch = some NightActionKind.watch
kind_of_action ActionType.clean = some NightActionKind.clean
kind_of_action ActionType.serial_kill = some NightActionKind.serial_kill
kind_of_action _ = none

abbrev pub intent_of : String → NightActionKind → Option String → NightActionIntent
intent_of actor kind target = record {
  actor = actor;
  kind = kind;
  target = target;
  redirect_target = none;
}

abbrev cons_intent :
    Option NightActionKind
    → String
    → Option String
    → List NightActionIntent
    → List NightActionIntent
cons_intent none actor target rest = rest
cons_intent (some kind) actor target rest = intent_of actor kind target ∷ rest

unfoldable pub intents_from_current_submissions : Dict String Action → List NightActionIntent
unfolding kind_of_action
intents_from_current_submissions [] = []
intents_from_current_submissions ((actor, action) ∷ submissions) =
    cons_intent (kind_of_action action.type) actor action.target
      (intents_from_current_submissions submissions)

-- night.py's `resolve_night` is this function under its historical name.
unfoldable pub resolve_current_night : GameState → Dict String Action → MatrixNightResolution
resolve_current_night state all_submissions =
    resolve_night_actions state (intents_from_current_submissions all_submissions)

pub record CurrentMafiaKillOutcome : Type 0 where
  pub target : Option String
  pub vote_tally : Dict String ℕ
  pub reason : String

unfoldable pub resolve_current_mafia_kill : GameState → Dict String Action → CurrentMafiaKillOutcome
resolve_current_mafia_kill state mafia_submissions =
    let result = resolve_night_actions state (intents_from_current_submissions mafia_submissions) in
    record {
      target = result.mafia_kill_target;
      vote_tally = result.mafia_vote_tally;
      reason = result.mafia_kill_reason;
    }

unfoldable pub find_role : GameState → Role → Option Seat
find_role state role = find (λ seat. seat.role == role) state.seats

abbrev no_protect : String → ProtectOutcome
no_protect reason = record { protected = none; reason = reason }

abbrev protect_or : Option ProtectOutcome → ProtectOutcome
protect_or none = no_protect "invalid_target"
protect_or (some outcome) = outcome

-- A living doctor's submission of a target.
unfoldable pub protect_target :
    GameState → (doctor : Seat) → ActionType → Option String → ProtectOutcome
protect_target state doctor type target =
    if not (type == ActionType.protect) || not (is_some target)
    then no_protect "invalid_target"
    else if not (is_some (alive_seat state target))
    then no_protect "invalid_target"
    else if target == doctor.last_protected_target
    then no_protect "REPEAT_VIOLATION"
    else protect_or (
        get doctor.public_player_id
          (resolve_night_actions state (
            intent_of doctor.public_player_id NightActionKind.protect target
            ∷ [])).protect_outcomes)

unfoldable pub protect_submission : GameState → (doctor : Seat) → Option Action → ProtectOutcome
unfolding protect_target
protect_submission state doctor none = no_protect "no_submission"
protect_submission state doctor (some action) =
    protect_target state doctor action.type action.target

unfoldable pub protect_by : GameState → Option Seat → Option Action → ProtectOutcome
unfolding protect_submission
protect_by state none submission = no_protect "no_doctor"
protect_by state (some doctor) submission =
    if not doctor.alive
    then no_protect "dead_doctor"
    else protect_submission state doctor submission

unfoldable pub resolve_current_doctor_protect : GameState → Option Action → ProtectOutcome
unfolding protect_by
resolve_current_doctor_protect state doctor_submission =
    protect_by state (find_role state Role.doctor) doctor_submission

abbrev no_finding : String → InvestigationOutcome
no_finding reason = record { target = none; finding = none; reason = reason }

abbrev finding_or : Option InvestigationOutcome → InvestigationOutcome
finding_or none = no_finding "invalid_target"
finding_or (some outcome) = outcome

-- A living detective's submission of a target.
unfoldable pub investigation_target :
    GameState → (detective : Seat) → ActionType → Option String → InvestigationOutcome
investigation_target state detective type target =
    if not (type == ActionType.investigate)
    then no_finding "invalid_target"
    else if not (is_some target)
    then no_finding "invalid_target"
    else if target == some detective.public_player_id
    then no_finding "self_target"
    else if not (is_some (alive_seat state target))
    then no_finding "invalid_target"
    else finding_or (
        get detective.public_player_id
          (resolve_night_actions state (
            intent_of detective.public_player_id NightActionKind.investigate target
            ∷ [])).investigation_outcomes)

unfoldable pub investigation_submission :
    GameState → (detective : Seat) → Option Action → InvestigationOutcome
unfolding investigation_target
investigation_submission state detective none = no_finding "no_submission"
investigation_submission state detective (some action) =
    investigation_target state detective action.type action.target

unfoldable pub investigation_by : GameState → Option Seat → Option Action → InvestigationOutcome
unfolding investigation_submission
investigation_by state none submission = no_finding "no_detective"
investigation_by state (some detective) submission =
    if not detective.alive
    then no_finding "dead_detective"
    else investigation_submission state detective submission

unfoldable pub resolve_current_detective_investigation :
    GameState → Option Action → InvestigationOutcome
unfolding investigation_by
resolve_current_detective_investigation state detective_submission =
    investigation_by state (find_role state Role.detective) detective_submission
