-- ===== src/Win.antt =====
-- src/padrino/core/engine/win_conditions.py: the ordered terminal conditions of a ruleset and the
-- check that evaluates them.
pub mod Rulesets
pub mod Counts
pub mod Verdicts
use padrino.Base.{
  ℕ, ◌+◌, ◌≤◌, ◌<◌, Bool, true, false, ◌&&◌, not, Option, none, some, List, [], ◌∷◌, String, ltb,
  leb, ◌=ℕ=◌, mem, is_empty, sum_values, if◌then◌else◌, string_eq,
}
use padrino.Game.{
  Faction, faction_value, GameState, alive_count_by_faction, alive_counts_by_faction, faction_eq,
}

abbrev pub reason_all_mafia_eliminated : String
reason_all_mafia_eliminated = "ALL_MAFIA_ELIMINATED"

abbrev pub reason_parity_reached : String
reason_parity_reached = "PARITY_REACHED"

abbrev pub reason_max_days_reached : String
reason_max_days_reached = "MAX_DAYS_REACHED"

pub data WinConditionKind : Type 0 where
  target_factions_eliminated faction_parity solo_last_alive alt_trigger day_cap : WinConditionKind

pub record WinCondition : Type 0 where
  pub kind : WinConditionKind
  pub winner : String
  pub reason : String
  pub faction : Option Faction
  pub target_factions : List Faction
  pub opponent_factions : List Faction
  pub blocked_by_alive_factions : List Faction
  pub trigger : Option String

pub record WinResult : Type 0 where
  pub winner : String
  pub reason : String

-- `MAX_DAYS`, and `WIN_CONDITIONS` where the ruleset declares it.
pub record WinRuleset : Type 0 where
  pub max_days : ℕ
  pub win_conditions : Option (List WinCondition)

unfoldable pub canonical_two_faction_win_conditions : List WinCondition
unfolding faction_value
canonical_two_faction_win_conditions =
    record {
      kind = WinConditionKind.target_factions_eliminated;
      winner = faction_value Faction.town;
      reason = reason_all_mafia_eliminated;
      faction = none;
      target_factions = Faction.mafia ∷ [];
      opponent_factions = [];
      blocked_by_alive_factions = [];
      trigger = none;
    }
    ∷ record {
      kind = WinConditionKind.faction_parity;
      winner = faction_value Faction.mafia;
      reason = reason_parity_reached;
      faction = some Faction.mafia;
      target_factions = [];
      opponent_factions = Faction.town ∷ [];
      blocked_by_alive_factions = [];
      trigger = none;
    }
    ∷ record {
      kind = WinConditionKind.day_cap;
      winner = "DRAW";
      reason = reason_max_days_reached;
      faction = none;
      target_factions = [];
      opponent_factions = [];
      blocked_by_alive_factions = [];
      trigger = none;
    }
    ∷ []

unfoldable pub alive_count : GameState → List Faction → ℕ
alive_count state [] = 0
alive_count state (faction ∷ factions) =
    alive_count_by_faction state faction + alive_count state factions

unfoldable pub total_alive : GameState → ℕ
total_alive state = sum_values (alive_counts_by_faction state)

unfoldable pub has_eliminated_targets : WinCondition → GameState → Bool
has_eliminated_targets condition state =
    not (is_empty condition.target_factions) && alive_count state condition.target_factions =ℕ= 0

-- `_faction_parity_reached`, after the test that a faction is given.
unfoldable parity_of : Faction → WinCondition → GameState → Bool
parity_of faction condition state =
    if is_empty condition.opponent_factions
    then false
    else if not (is_empty condition.blocked_by_alive_factions)
        && ltb 0 (alive_count state condition.blocked_by_alive_factions)
    then false
    else if leb (alive_count_by_faction state faction) 0
    then false
    else leb (alive_count state condition.opponent_factions) (alive_count_by_faction state faction)

abbrev of_faction : Option Faction → (Faction → Bool) → Bool
of_faction none test = false
of_faction (some faction) test = test faction

unfoldable pub faction_parity_reached : WinCondition → GameState → Bool
unfolding parity_of
faction_parity_reached condition state =
    of_faction condition.faction (λ faction. parity_of faction condition state)

unfoldable solo_of : Faction → GameState → Bool
solo_of faction state =
    ltb 0 (alive_count_by_faction state faction)
    && alive_count_by_faction state faction =ℕ= total_alive state

unfoldable pub is_solo_last_alive : WinCondition → GameState → Bool
unfolding solo_of
is_solo_last_alive condition state = of_faction condition.faction (λ faction. solo_of faction state)

abbrev triggered : Option String → List String → Bool
triggered none triggers = false
triggered (some trigger) triggers = mem trigger triggers

unfoldable matches_of : WinConditionKind → WinCondition → GameState → WinRuleset → Bool
matches_of WinConditionKind.target_factions_eliminated condition state rules =
    has_eliminated_targets condition state
matches_of WinConditionKind.faction_parity condition state rules =
    faction_parity_reached condition state
matches_of WinConditionKind.solo_last_alive condition state rules =
    is_solo_last_alive condition state
matches_of WinConditionKind.alt_trigger condition state rules =
    triggered condition.trigger state.win_condition_triggers
matches_of WinConditionKind.day_cap condition state rules = ltb rules.max_days state.day

unfoldable pub condition_matches : WinCondition → GameState → WinRuleset → Bool
unfolding matches_of
condition_matches condition state rules = matches_of condition.kind condition state rules

abbrev pub conditions_or : Option (List WinCondition) → List WinCondition
conditions_or none = canonical_two_faction_win_conditions
conditions_or (some declared) = declared

unfoldable pub conditions_for : WinRuleset → List WinCondition
conditions_for rules = conditions_or rules.win_conditions

abbrev result_of : WinCondition → WinResult
result_of condition = record { winner = condition.winner; reason = condition.reason }

-- The loop of `check_win`.
unfoldable pub first_match : List WinCondition → GameState → WinRuleset → Option WinResult
first_match [] state rules = none
first_match (condition ∷ conditions) state rules =
    let rest = first_match conditions state rules in
    if condition_matches condition state rules then some (result_of condition) else rest

unfoldable pub check_win : GameState → WinRuleset → Option WinResult
unfolding first_match
check_win state rules = first_match (conditions_for rules) state rules
