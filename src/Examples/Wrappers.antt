-- ===== src/Examples/Wrappers.antt =====
-- The wrappers for the current roles, and the actions that need a target.
use padrino.Nar.Matrix.{
  NightActionKind-discrete, MatrixEffect-discrete, kind_value, resolution_matrix,
}
use padrino.Nar.Intents.{
  seat_order, id_le, intent_le, sort_ids, sort_intents, alive_seat, valid_kind,
  valid_target_for_kind, is_valid, valid_intents, tier_intents,
}
use padrino.Nar.Visits.{commuter_target, roleblock_step, roleblock_loop, apply_roleblocks}
use padrino.Nar.Redirects.{
  redirect_loop, apply_redirects, retarget_if_redirected, settle, still_valid, activate,
  active_loop, active_intents_after_blocks_and_redirects,
}
use padrino.Nar.Tiers.{
  protect_step, protect_loop, resolve_protects, targets_of, counter, kill_winner, kill_vote,
  resolve_mafia_kill, resolve_serial_kill, target_set, resolve_eliminated_ids, id_set, actors_of,
  resolve_framed_targets, finding_for,
}
use padrino.Nar.Reads.{
  investigate_seat, investigate_target, investigate_loop, resolve_investigations,
  resolve_cleaned_deaths,
}
use padrino.Nar.Night.{plan_night, resolve_plan, resolve_night_actions}
use padrino.Nar.Current.{
  kind_of_action, intents_from_current_submissions, resolve_current_mafia_kill, find_role,
  resolve_current_doctor_protect, resolve_current_detective_investigation, protect_by,
  protect_submission, protect_target, investigation_by, investigation_submission,
  investigation_target,
}
use padrino.Base.{
  ◌≡◌, refl, true, false, some, mem, add, diff, filter, find, get, put, bump, max_value, keys_at,
  sort_by, insert_by, String-discrete, is_empty, dec_option,
}
use padrino.Game.{
  ActionType, ActionType-discrete, action_type_eq, Finding, seat_by_public_id,
  janitor_clean_shots_remaining, framer_frame_shots_remaining, Role-discrete, Faction-discrete,
}
use padrino.Legal.{action_requires_target}
use padrino.Examples.Table.{night_state, night_submissions, action_of}

goon_kills : (resolve_current_mafia_kill night_state night_submissions).target ≡ some "P07"
unfolding resolve_current_mafia_kill NightActionKind-discrete MatrixEffect-discrete kind_value
    resolution_matrix seat_order id_le intent_le sort_ids sort_intents alive_seat valid_kind
    valid_target_for_kind is_valid valid_intents tier_intents commuter_target roleblock_step
    roleblock_loop apply_roleblocks redirect_loop apply_redirects retarget_if_redirected settle
    still_valid activate active_loop active_intents_after_blocks_and_redirects protect_step
    protect_loop resolve_protects targets_of counter kill_winner kill_vote resolve_mafia_kill
    resolve_serial_kill target_set resolve_eliminated_ids id_set actors_of resolve_framed_targets
    finding_for investigate_seat investigate_target investigate_loop resolve_investigations
    resolve_cleaned_deaths plan_night resolve_plan resolve_night_actions kind_of_action
    intents_from_current_submissions mem add diff filter find get put bump max_value keys_at sort_by
    insert_by String-discrete is_empty dec_option seat_by_public_id janitor_clean_shots_remaining
    framer_frame_shots_remaining Role-discrete Faction-discrete ActionType-discrete
goon_kills = refl

doctor_protects :
    (resolve_current_doctor_protect night_state
      (some (action_of ActionType.protect "P06"))).protected
    ≡ some "P06"
unfolding resolve_current_doctor_protect protect_by protect_submission protect_target find_role
    NightActionKind-discrete MatrixEffect-discrete kind_value resolution_matrix seat_order id_le
    intent_le sort_ids sort_intents alive_seat valid_kind valid_target_for_kind is_valid
    valid_intents tier_intents commuter_target roleblock_step roleblock_loop apply_roleblocks
    redirect_loop apply_redirects retarget_if_redirected settle still_valid activate active_loop
    active_intents_after_blocks_and_redirects protect_step protect_loop resolve_protects targets_of
    counter kill_winner kill_vote resolve_mafia_kill resolve_serial_kill target_set
    resolve_eliminated_ids id_set actors_of resolve_framed_targets finding_for investigate_seat
    investigate_target investigate_loop resolve_investigations resolve_cleaned_deaths plan_night
    resolve_plan resolve_night_actions kind_of_action intents_from_current_submissions mem add diff
    filter find get put bump max_value keys_at sort_by insert_by String-discrete is_empty dec_option
    seat_by_public_id janitor_clean_shots_remaining framer_frame_shots_remaining Role-discrete
    Faction-discrete ActionType-discrete
doctor_protects = refl

detective_finds :
    (resolve_current_detective_investigation night_state
      (some (action_of ActionType.investigate "P01"))).finding
    ≡ some Finding.mafia
unfolding resolve_current_detective_investigation investigation_by investigation_submission
    investigation_target find_role NightActionKind-discrete MatrixEffect-discrete kind_value
    resolution_matrix seat_order id_le intent_le sort_ids sort_intents alive_seat valid_kind
    valid_target_for_kind is_valid valid_intents tier_intents commuter_target roleblock_step
    roleblock_loop apply_roleblocks redirect_loop apply_redirects retarget_if_redirected settle
    still_valid activate active_loop active_intents_after_blocks_and_redirects protect_step
    protect_loop resolve_protects targets_of counter kill_winner kill_vote resolve_mafia_kill
    resolve_serial_kill target_set resolve_eliminated_ids id_set actors_of resolve_framed_targets
    finding_for investigate_seat investigate_target investigate_loop resolve_investigations
    resolve_cleaned_deaths plan_night resolve_plan resolve_night_actions kind_of_action
    intents_from_current_submissions mem add diff filter find get put bump max_value keys_at sort_by
    insert_by String-discrete is_empty dec_option seat_by_public_id janitor_clean_shots_remaining
    framer_frame_shots_remaining Role-discrete Faction-discrete ActionType-discrete
detective_finds = refl

detective_not_self :
    (resolve_current_detective_investigation night_state
      (some (action_of ActionType.investigate "P06"))).reason
    ≡ "self_target"
unfolding resolve_current_detective_investigation investigation_by investigation_submission
    investigation_target find_role NightActionKind-discrete MatrixEffect-discrete kind_value
    resolution_matrix seat_order id_le intent_le sort_ids sort_intents alive_seat valid_kind
    valid_target_for_kind is_valid valid_intents tier_intents commuter_target roleblock_step
    roleblock_loop apply_roleblocks redirect_loop apply_redirects retarget_if_redirected settle
    still_valid activate active_loop active_intents_after_blocks_and_redirects protect_step
    protect_loop resolve_protects targets_of counter kill_winner kill_vote resolve_mafia_kill
    resolve_serial_kill target_set resolve_eliminated_ids id_set actors_of resolve_framed_targets
    finding_for investigate_seat investigate_target investigate_loop resolve_investigations
    resolve_cleaned_deaths plan_night resolve_plan resolve_night_actions kind_of_action
    intents_from_current_submissions mem add diff filter find get put bump max_value keys_at sort_by
    insert_by String-discrete is_empty dec_option seat_by_public_id janitor_clean_shots_remaining
    framer_frame_shots_remaining Role-discrete Faction-discrete ActionType-discrete
detective_not_self = refl

needs_target :
    (action_requires_target ActionType.vote ≡ true)
    × (action_requires_target ActionType.noop ≡ false)
unfolding action_requires_target mem ActionType-discrete
needs_target = (refl, refl)
