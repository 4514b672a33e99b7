-- ===== src/Win/Rulesets.antt =====
-- The win policies that the rulesets declare: rulesets/mini7_v1.py, bench10_v1.py (both canonical),
-- jester8_v1.py and sk12_v1.py.
use padrino.Base.{none, some, List, [], ◌∷◌, String}
use padrino.Game.{Faction, faction_value}
use padrino.Reducer.{jester_day_voted_out_trigger}
use padrino.Win.{
  WinConditionKind, WinCondition, WinRuleset, canonical_two_faction_win_conditions,
  reason_all_mafia_eliminated, reason_parity_reached, reason_max_days_reached,
}

abbrev pub mini7_v1 : WinRuleset
mini7_v1 = record { max_days = 5; win_conditions = some canonical_two_faction_win_conditions }

abbrev reason_all_threats_eliminated : String
reason_all_threats_eliminated = "ALL_THREATS_ELIMINATED"

abbrev reason_solo_last_alive : String
reason_solo_last_alive = "SOLO_LAST_ALIVE"

abbrev reason_jester_day_voted_out : String
reason_jester_day_voted_out = "JESTER_DAY_VOTED_OUT"

-- A condition with the defaults of the optional fields.
abbrev condition : WinConditionKind → (winner reason : String) → WinCondition
condition kind winner reason = record {
  kind = kind;
  winner = winner;
  reason = reason;
  faction = none;
  target_factions = [];
  opponent_factions = [];
  blocked_by_alive_factions = [];
  trigger = none;
}

unfoldable pub sk12_v1_conditions : List WinCondition
unfolding faction_value
sk12_v1_conditions =
    record (condition WinConditionKind.target_factions_eliminated (faction_value Faction.town)
      reason_all_threats_eliminated) {
        target_factions = Faction.mafia ∷ Faction.serial_killer ∷ [];
      }
    ∷ record (condition WinConditionKind.solo_last_alive (faction_value Faction.serial_killer)
        reason_solo_last_alive) { faction = some Faction.serial_killer }
    ∷ record (condition WinConditionKind.faction_parity (faction_value Faction.mafia)
        reason_parity_reached) {
          faction = some Faction.mafia;
          opponent_factions = Faction.town ∷ [];
          blocked_by_alive_factions = Faction.serial_killer ∷ [];
        }
    ∷ condition WinConditionKind.day_cap "DRAW" reason_max_days_reached
    ∷ []

abbrev pub sk12_v1 : WinRuleset
sk12_v1 = record { max_days = 5; win_conditions = some sk12_v1_conditions }

unfoldable pub jester8_v1_conditions : List WinCondition
unfolding faction_value
jester8_v1_conditions =
    record (condition WinConditionKind.alt_trigger (faction_value Faction.jester)
      reason_jester_day_voted_out) { trigger = some jester_day_voted_out_trigger }
    ∷ record (condition WinConditionKind.target_factions_eliminated (faction_value Faction.town)
        reason_all_mafia_eliminated) { target_factions = Faction.mafia ∷ [] }
    ∷ record (condition WinConditionKind.faction_parity (faction_value Faction.mafia)
        reason_parity_reached) {
          faction = some Faction.mafia;
          opponent_factions = Faction.town ∷ [];
        }
    ∷ condition WinConditionKind.day_cap "DRAW" reason_max_days_reached
    ∷ []

abbrev pub jester8_v1 : WinRuleset
jester8_v1 = record { max_days = 5; win_conditions = some jester8_v1_conditions }
