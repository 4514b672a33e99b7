-- ===== src/Nar/Night.antt =====
-- nar.py: `resolve_night_actions`, which runs the tiers one after the other.
use padrino.Base.{ℕ, Option, List, [], ◌∷◌, ◌++◌, String, head?, Dict, string_eq, option_eq}
use padrino.Game.{role_eq, action_type_eq, GameState, Finding}
use padrino.Nar.Matrix.{NightActionKind}
use padrino.Nar.Intents.{NightActionIntent, sort_ids, valid_intents, tier_intents}
use padrino.Nar.Visits.{VisitRecord, NightFeedback, NightNotes, apply_roleblocks}
use padrino.Nar.Redirects.{apply_redirects, active_intents_after_blocks_and_redirects}
use padrino.Nar.Tiers.{
  ProtectOutcome, InvestigationOutcome, DeathReveal, resolve_protects, resolve_mafia_kill,
  resolve_serial_kill, resolve_eliminated_ids, protection_feedback, resolve_framed_targets,
}
use padrino.Nar.Reads.{
  resolve_investigations, resolve_visit_graph_feedback, resolve_cleaned_deaths, death_reveals,
}

pub record MatrixNightResolution : Type 0 where
  pub eliminated : Option String
  pub protected : Option String
  pub detective_finding : Option (String × Finding)
  pub mafia_kill_target : Option String
  pub eliminated_player_ids : List String
  pub serial_kill_target : Option String
  pub serial_kill_reason : String
  pub mafia_vote_tally : Dict String ℕ
  pub mafia_kill_reason : String
  pub blocked_actor_ids : List String
  pub visits : List VisitRecord
  pub feedback : List NightFeedback
  pub death_reveals : List DeathReveal
  pub cleaned_deaths : List String
  pub clean_spent_actor_ids : List String
  pub framed_targets : List String
  pub frame_spent_actor_ids : List String
  pub commuter_bounced_targets : List String
  pub protect_outcomes : Dict String ProtectOutcome
  pub investigation_outcomes : Dict String InvestigationOutcome

-- The state after the first two tiers: who is blocked, the active intents and the notes.
pub record NightPlan : Type 0 where
  pub blocked_actor_ids : List String
  pub active_intents : List NightActionIntent
  pub notes : NightNotes

abbrev pub no_notes : NightNotes
no_notes = record { visits = []; feedback = []; commuter_bounced_targets = [] }

-- The first three calls of `resolve_night_actions`.
unfoldable pub plan_night : GameState → List NightActionIntent → NightPlan
plan_night state intents =
    let valid = valid_intents state intents in
    let (blocked, notes₁) = apply_roleblocks state valid no_notes in
    let (redirects, notes₂) = apply_redirects state valid blocked notes₁ in
    let (active, notes₃) =
      active_intents_after_blocks_and_redirects state valid blocked redirects notes₂ in
    record { blocked_actor_ids = blocked; active_intents = active; notes = notes₃ }

-- The rest of `resolve_night_actions`.
unfoldable pub resolve_plan : GameState → NightPlan → MatrixNightResolution
resolve_plan state plan =
    let active = plan.active_intents in
    let protects = resolve_protects active in
    let mafia = resolve_mafia_kill active in
    let (serial_target, serial_reason) = resolve_serial_kill active in
    let kill_targets = mafia.target ∷ serial_target ∷ [] in
    let eliminated_ids = resolve_eliminated_ids state kill_targets protects.protected_targets in
    let (framed, framers) = resolve_framed_targets state active in
    let inv = resolve_investigations state active eliminated_ids framed in
    let (cleaned, cleaners) = resolve_cleaned_deaths state active eliminated_ids in
    record {
      eliminated = head? eliminated_ids;
      protected = protects.first_protected;
      detective_finding = inv.detective_finding;
      mafia_kill_target = mafia.target;
      eliminated_player_ids = eliminated_ids;
      serial_kill_target = serial_target;
      serial_kill_reason = serial_reason;
      mafia_vote_tally = mafia.vote_tally;
      mafia_kill_reason = mafia.reason;
      blocked_actor_ids = plan.blocked_actor_ids;
      visits = plan.notes.visits;
      feedback =
          plan.notes.feedback
          ++ (protection_feedback (tier_intents active NightActionKind.protect) kill_targets
                eliminated_ids
              ++ (inv.feedback
                  ++ resolve_visit_graph_feedback state active plan.notes.visits eliminated_ids));
      death_reveals = death_reveals state eliminated_ids cleaned;
      cleaned_deaths = cleaned;
      clean_spent_actor_ids = cleaners;
      framed_targets = framed;
      frame_spent_actor_ids = framers;
      commuter_bounced_targets = sort_ids state plan.notes.commuter_bounced_targets;
      protect_outcomes = protects.outcomes;
      investigation_outcomes = inv.outcomes;
    }

unfoldable pub resolve_night_actions : GameState → List NightActionIntent → MatrixNightResolution
unfolding plan_night resolve_plan
resolve_night_actions state intents = resolve_plan state (plan_night state intents)
