-- ===== src/Game/Enums.antt =====
-- src/padrino/core/enums.py: the enumerations that the deterministic engine reads. Members of
-- different enumerations share names, so they are written with their type: `Faction.mafia`.
use Prim.Native.String.{String}
use padrino.Base.{Eq}

pub data Faction : Type 0 where
  town mafia serial_killer jester : Faction

pub data Role : Type 0 where
  mafia_goon ninja godfather mafia_roleblocker framer janitor detective doctor : Role
  tracker watcher mayor commuter mason serial_killer jester villager : Role

pub data ActionType : Type 0 where
  noop abstain vote mafia_kill protect investigate : ActionType
  roleblock frame track watch clean serial_kill : ActionType

pub data SeatKind : Type 0 where
  ai human ai_takeover : SeatKind

pub data PhaseKind : Type 0 where
  setup night_0_mafia_intro day_discussion day_vote : PhaseKind
  night_mafia_discussion night_actions terminal : PhaseKind

unfoldable pub Faction-discrete : Discrete Faction
Faction-discrete = hlevel

unfoldable pub Role-discrete : Discrete Role
Role-discrete = hlevel

unfoldable pub ActionType-discrete : Discrete ActionType
ActionType-discrete = hlevel

unfoldable pub SeatKind-discrete : Discrete SeatKind
SeatKind-discrete = hlevel

unfoldable pub PhaseKind-discrete : Discrete PhaseKind
PhaseKind-discrete = hlevel

instance abbrev pub faction_eq : Eq Faction
faction_eq = record { dec = Faction-discrete }

instance abbrev pub role_eq : Eq Role
role_eq = record { dec = Role-discrete }

instance abbrev pub action_type_eq : Eq ActionType
action_type_eq = record { dec = ActionType-discrete }

instance abbrev pub seat_kind_eq : Eq SeatKind
seat_kind_eq = record { dec = SeatKind-discrete }

instance abbrev pub phase_kind_eq : Eq PhaseKind
phase_kind_eq = record { dec = PhaseKind-discrete }

-- `Faction.X.value`
unfoldable pub faction_value : Faction → String
faction_value Faction.town = "TOWN"
faction_value Faction.mafia = "MAFIA"
faction_value Faction.serial_killer = "SERIAL_KILLER"
faction_value Faction.jester = "JESTER"
