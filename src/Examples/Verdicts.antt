-- ===== src/Examples/Verdicts.antt =====
-- Phases and verdicts at concrete states.
use padrino.Base.{
  ◌+◌, ◌*◌, ◌≡◌, ◌∙◌, refl, inr, some, none, [], ◌∷◌, count_if, is_empty, ltb, ◌=ℕ=◌, if◌then◌else◌,
  ok, arith,
}
use padrino.Game.{
  Faction, Faction-discrete, Role, PhaseKind, Phase, GameState, PlayerEliminatedPayload,
  alive_count_by_faction,
}
use padrino.Phases.{PhaseRuleset, next_phase, advance}
use padrino.Phases.Schedule.{IsPlayable, next_phase-IsScheduled, advance-setup, phases_left, Goes}
use padrino.Reducer.{apply_event, replay_from, is_recorded_only}
use padrino.Win.{
  WinConditionKind, WinCondition, WinResult, check_win, conditions_for, first_match,
  condition_matches, has_eliminated_targets, total_alive, alive_count,
  canonical_two_faction_win_conditions,
}
use padrino.Win.Rulesets.{mini7_v1, sk12_v1}
use padrino.Win.Verdicts.{
  canonical_verdict, check_win-canonical, check_win-town_final, check_win-sk12,
}
use padrino.Examples.Table.{state_of, phase_of, goon, doctor, villager, killer}
use padrino.Examples.Logs.{message}

abbrev rules : PhaseRuleset
rules = record { max_days = 5; discussion_rounds_per_day = 3 }

abbrev rules_playable : IsPlayable rules
rules_playable = (omega arith, omega arith)

next_phase-IsScheduled_example :
    Goes rules
      (next_phase (phase_of PhaseKind.day_vote) rules)
      (phases_left rules (phase_of PhaseKind.day_vote))
next_phase-IsScheduled_example =
    next_phase-IsScheduled rules rules_playable (phase_of PhaseKind.day_vote)
      (omega arith, omega arith) λ same. ground arith

advance-setup_example :
    (q : Phase) × (advance
        (2 + 5 * (3 + 3))
        (record { kind = PhaseKind.setup; day = 0; round = 0 })
        rules
      ≡ ok q)
    × (q.kind ≡ PhaseKind.terminal)
    × (q.day ≡ 5)
advance-setup_example = advance-setup rules rules_playable 0 0

-- Only the town lives.
abbrev town_state : GameState
town_state = state_of PhaseKind.day_discussion (doctor ∷ villager ∷ [])

abbrev town_wins : WinResult
town_wins = record { winner = "TOWN"; reason = "ALL_MAFIA_ELIMINATED" }

town_verdict_holds : check_win town_state mini7_v1 ≡ some town_wins
unfolding check_win conditions_for first_match condition_matches has_eliminated_targets
    canonical_two_faction_win_conditions alive_count_by_faction alive_count is_empty count_if
    Faction-discrete
town_verdict_holds = refl

check_win-canonical_example :
    check_win town_state mini7_v1
    ≡ canonical_verdict
        (alive_count_by_faction town_state Faction.mafia)
        (alive_count_by_faction town_state Faction.town)
        town_state.day
        mini7_v1.max_days
check_win-canonical_example = check_win-canonical town_state mini7_v1 (inr refl)

check_win-town_final_example : check_win town_state mini7_v1 ≡ some town_wins
check_win-town_final_example =
    check_win-town_final town_state town_state mini7_v1 (message ∷ []) town_wins (inr refl)
      town_verdict_holds refl refl (unfold replay_from apply_event is_recorded_only in refl)

-- One mafioso against two of the town.
abbrev open_state : GameState
open_state = state_of PhaseKind.day_discussion (goon ∷ doctor ∷ villager ∷ [])

no_verdict : check_win open_state mini7_v1 ≡ none
no_verdict =
    check_win-canonical open_state mini7_v1 (inr refl)
    ∙ unfold alive_count_by_faction count_if Faction-discrete in refl

abbrev last_alive : WinCondition
last_alive = record {
  kind = WinConditionKind.solo_last_alive;
  winner = "SERIAL_KILLER";
  reason = "SOLO_LAST_ALIVE";
  faction = some Faction.serial_killer;
  target_factions = [];
  opponent_factions = [];
  blocked_by_alive_factions = [];
  trigger = none;
}

abbrev duel_state : GameState
duel_state = state_of PhaseKind.day_discussion (killer ∷ villager ∷ [])

check_win-sk12_example : check_win duel_state sk12_v1 ≡ (
    if alive_count_by_faction duel_state Faction.serial_killer =ℕ= total_alive duel_state
    then some (record { winner = "SERIAL_KILLER"; reason = "SOLO_LAST_ALIVE" })
    else if ltb 5 duel_state.day
    then some (record { winner = "DRAW"; reason = "MAX_DAYS_REACHED" })
    else none)
check_win-sk12_example =
    check_win-sk12 duel_state
      (unfold alive_count_by_faction count_if Faction-discrete in omega arith)

abbrev lynch : PlayerEliminatedPayload
lynch = record {
  public_player_id = "P07";
  cause = "DAY_VOTE";
  role = some Role.jester;
  faction = some Faction.jester;
}
