-- ===== src/Examples/Table.antt =====
-- A table of nine seats and the actions of one night on it.
use padrino.Base.{ℕ, true, none, some, List, [], ◌∷◌, String, Dict}
use padrino.Game.{Faction, Role, ActionType, PhaseKind, Phase, Seat, GameState, Action}

abbrev seat_at : String → ℕ → Role → Faction → Seat
seat_at pid index role faction = record {
  public_player_id = pid;
  seat_index = index;
  role = role;
  faction = faction;
  alive = true;
  death_phase = none;
  last_protected_target = none;
  queued_inspection_result = none;
  seat_kind = none;
  janitor_clean_shots_remaining = none;
  framer_frame_shots_remaining = none;
}

abbrev pub goon : Seat
goon = seat_at "P01" 1 Role.mafia_goon Faction.mafia

abbrev roleblocker : Seat
roleblocker = seat_at "P02" 2 Role.mafia_roleblocker Faction.mafia

abbrev pub janitor : Seat
janitor = seat_at "P03" 3 Role.janitor Faction.mafia

abbrev pub framer : Seat
framer = seat_at "P04" 4 Role.framer Faction.mafia

abbrev pub doctor : Seat
doctor = seat_at "P05" 5 Role.doctor Faction.town

abbrev pub detective : Seat
detective = seat_at "P06" 6 Role.detective Faction.town

abbrev pub villager : Seat
villager = seat_at "P07" 7 Role.villager Faction.town

abbrev pub commuter : Seat
commuter = seat_at "P08" 8 Role.commuter Faction.town

abbrev pub killer : Seat
killer = seat_at "P09" 9 Role.serial_killer Faction.serial_killer

abbrev pub phase_of : PhaseKind → Phase
phase_of kind = record { kind = kind; day = 1; round = 0 }

abbrev pub state_of : PhaseKind → List Seat → GameState
state_of kind seats = record {
  ruleset_id = "bench";
  game_id = "g1";
  game_seed = "seed";
  current_phase = phase_of kind;
  seats = seats;
  day = 1;
  terminal_result = none;
  terminal_reason = none;
  win_condition_triggers = [];
}

abbrev table : List Seat
table =
    goon ∷ roleblocker ∷ janitor ∷ framer ∷ doctor ∷ detective ∷ villager ∷ commuter ∷ killer ∷ []

abbrev pub night_state : GameState
night_state = state_of PhaseKind.night_actions table

abbrev pub action_of : ActionType → String → Action
action_of type target = record { type = type; target = some target }

-- The roleblocker stops the serial killer, the goon kills the villager, the janitor cleans the
-- death, the framer frames the doctor, and the detective looks at the doctor.
abbrev pub night_submissions : Dict String Action
night_submissions =
    ("P01", action_of ActionType.mafia_kill "P07")
    ∷ ("P02", action_of ActionType.roleblock "P09")
    ∷ ("P03", action_of ActionType.clean "P07")
    ∷ ("P04", action_of ActionType.frame "P05")
    ∷ ("P05", action_of ActionType.protect "P06")
    ∷ ("P06", action_of ActionType.investigate "P05")
    ∷ ("P09", action_of ActionType.serial_kill "P05")
    ∷ []
