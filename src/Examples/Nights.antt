-- ===== src/Examples/Nights.antt =====
-- One night on the table: the roleblocked serial killer kills nobody, the goon kills the villager, and
-- the framed doctor is found mafia.
use padrino.Nar.Matrix.{
  NightActionKind, NightActionKind-discrete, MatrixEffect-discrete, kind_value, resolution_matrix,
}
use padrino.Nar.Intents.{
  NightActionIntent, seat_order, id_le, intent_le, sort_ids, sort_intents, alive_seat, valid_kind,
  valid_target_for_kind, is_valid, valid_intents, tier_intents,
}
use padrino.Nar.Visits.{commuter_target, roleblock_step, roleblock_loop, apply_roleblocks}
use padrino.Nar.Redirects.{
  redirect_loop, apply_redirects, retarget_if_redirected, settle, still_valid, activate,
  active_loop, active_intents_after_blocks_and_redirects,
}
use padrino.Nar.Tiers.{
  protect_step, protect_loop, resolve_protects, targets_of, counter, kill_winner, kill_vote,
  resolve_mafia_kill, resolve_serial_kill, target_set, resolve_eliminated_ids, id_set, actors_of,
  resolve_framed_targets, finding_for,
}
use padrino.Nar.Reads.{
  investigate_seat, investigate_target, investigate_loop, resolve_investigations,
  resolve_cleaned_deaths,
}
use padrino.Nar.Night.{
  no_notes, MatrixNightResolution, plan_night, resolve_plan, resolve_night_actions,
}
use padrino.Nar.Current.{kind_of_action, intents_from_current_submissions}
use padrino.Base.{
  ◌≡◌, ◌≢◌, ◌⊎◌, ◌↔◌, refl, true, some, [], ◌∷◌, List, string_eq, ◌&&◌, ◌||◌, not, ◌==◌, option_eq,
  ltb, filter, map, mem, add, diff, find, get, put, bump, max_value, keys_at, sort_by, insert_by,
  String-discrete, is_empty, dec_option,
}
use padrino.Game.{
  Finding, Seat, Role, Faction, seat_by_public_id, janitor_clean_shots_remaining,
  framer_frame_shots_remaining, Role-discrete, Faction-discrete,
}
use padrino.Nar.Active.{goes_on, active_intents_after_blocks_and_redirects-eq-filter}
use padrino.Nar.Kills.{resolve_kills-IsMostVoted, votes_for, IsMostVoted}
use padrino.Nar.Deaths.{
  is_protected, resolve_night_actions-eliminated, resolve_night_actions-victim,
}
use padrino.Nar.Blocks.{resolve_night_actions-blocked, bounces}
use padrino.Nar.Cleans.{resolve_night_actions-clean_spent, HasCleanShot}
use padrino.Nar.Protects.{resolve_night_actions-IsProtectOf, IsProtectOf}
use padrino.Nar.Findings.{resolve_night_actions-finding, IsFindingOf, HasDetective}
use padrino.Examples.Table.{night_state, night_submissions}

night_intents : List NightActionIntent
unfolding intents_from_current_submissions
night_intents = intents_from_current_submissions night_submissions

night_facts :
    (mem "P07" (resolve_night_actions night_state night_intents).eliminated_player_ids ≡ true)
    × (mem "P03" (resolve_night_actions night_state night_intents).clean_spent_actor_ids ≡ true)
    × (mem "P04" (resolve_night_actions night_state night_intents).frame_spent_actor_ids ≡ true)
    × ((resolve_night_actions night_state night_intents).detective_finding
        ≡ some ("P05", Finding.mafia))
    × (get "P05" (resolve_night_actions night_state night_intents).protect_outcomes
        ≡ some (record { protected = some "P06"; reason = "protected" }))
unfolding night_intents NightActionKind-discrete MatrixEffect-discrete kind_value resolution_matrix
    seat_order id_le intent_le sort_ids sort_intents alive_seat valid_kind valid_target_for_kind
    is_valid valid_intents tier_intents commuter_target roleblock_step roleblock_loop
    apply_roleblocks redirect_loop apply_redirects retarget_if_redirected settle still_valid
    activate active_loop active_intents_after_blocks_and_redirects protect_step protect_loop
    resolve_protects targets_of counter kill_winner kill_vote resolve_mafia_kill resolve_serial_kill
    target_set resolve_eliminated_ids id_set actors_of resolve_framed_targets finding_for
    investigate_seat investigate_target investigate_loop resolve_investigations
    resolve_cleaned_deaths plan_night resolve_plan resolve_night_actions kind_of_action
    intents_from_current_submissions mem add diff filter find get put bump max_value keys_at sort_by
    insert_by String-discrete is_empty dec_option seat_by_public_id janitor_clean_shots_remaining
    framer_frame_shots_remaining Role-discrete Faction-discrete
night_facts = (refl, refl, refl, refl, refl)

abbrev night : MatrixNightResolution
night = resolve_night_actions night_state night_intents

resolve_night_actions-eliminated_example :
    mem "P07" night.eliminated_player_ids
    ≡ (night.mafia_kill_target == some "P07" || night.serial_kill_target == some "P07")
      && not (is_protected (plan_night night_state night_intents).active_intents "P07")
resolve_night_actions-eliminated_example =
    resolve_night_actions-eliminated night_state night_intents "P07"

resolve_night_actions-victim_example :
    (victim : Seat) × (seat_by_public_id night_state "P07" ≡ some victim)
    × (victim.alive ≡ true)
    × (victim.role ≢ Role.commuter)
    × ((night.serial_kill_target ≡ some "P07") ⊎ (victim.faction ≢ Faction.mafia))
resolve_night_actions-victim_example =
    resolve_night_actions-victim night_state night_intents "P07" (night_facts.0)

active_intents_after_blocks_and_redirects-eq-filter_example :
    (active_intents_after_blocks_and_redirects night_state night_intents
      ("P09" ∷ [])
      (("P01", "P06") ∷ [])
      no_notes).0
    ≡ filter
        (goes_on night_state ("P09" ∷ []))
        (map (λ intent. retarget_if_redirected intent (("P01", "P06") ∷ [])) night_intents)
active_intents_after_blocks_and_redirects-eq-filter_example =
    active_intents_after_blocks_and_redirects-eq-filter night_state night_intents ("P09" ∷ [])
      (("P01", "P06") ∷ []) no_notes

resolve_kills-IsMostVoted_example :
    (((resolve_mafia_kill night_intents).target ≡ some "P07")
      ↔ IsMostVoted NightActionKind.factional_kill night_intents "P07")
    × (((resolve_serial_kill night_intents).0 ≡ some "P07")
        ↔ IsMostVoted NightActionKind.serial_kill night_intents "P07")
resolve_kills-IsMostVoted_example = resolve_kills-IsMostVoted night_intents "P07"

resolve_night_actions-blocked_example :
    mem "P09" night.blocked_actor_ids
    ≡ ltb 0 (votes_for NightActionKind.roleblock (valid_intents night_state night_intents) "P09")
      && not (bounces night_state "P09")
resolve_night_actions-blocked_example =
    resolve_night_actions-blocked night_state night_intents "P09"

resolve_night_actions-clean_spent_example : HasCleanShot night_state "P03"
resolve_night_actions-clean_spent_example =
    resolve_night_actions-clean_spent night_state night_intents "P03" (night_facts.1)

resolve_night_actions-finding_example :
    IsFindingOf night_state night.framed_targets ("P05", Finding.mafia)
    × HasDetective night_state night.eliminated_player_ids
resolve_night_actions-finding_example =
    resolve_night_actions-finding night_state night_intents ("P05", Finding.mafia) (night_facts.3)

resolve_night_actions-IsProtectOf_example :
    IsProtectOf night_state "P05" (record { protected = some "P06"; reason = "protected" })
resolve_night_actions-IsProtectOf_example =
    resolve_night_actions-IsProtectOf night_state night_intents "P05"
      (record { protected = some "P06"; reason = "protected" }) (night_facts.4)
