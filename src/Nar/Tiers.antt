-- ===== src/Nar/Tiers.antt =====
-- nar.py, the third tier and what the later ones share: protects, kills, the eliminated, frames and
-- the finding on a player.
use padrino.Base.{
  ℕ, Bool, false, Option, none, some, List, [], ◌∷◌, map, String, ◌==◌, filter, mem, add, diff,
  Dict, put, bump, max_value, keys_at, if◌then◌else◌, string_eq, option_eq,
}
use padrino.Game.{Faction, faction_eq, Role, role_eq, Seat, GameState, Finding}
use padrino.Nar.Matrix.{NightActionKind}
use padrino.Nar.Intents.{NightActionIntent, sort_ids, tier_intents}
use padrino.Nar.Visits.{NightFeedback, feedback_for, add_some}

abbrev pub reason_unique_plurality : String
reason_unique_plurality = "unique_plurality"

abbrev pub reason_tie : String
reason_tie = "tie"

abbrev reason_all_invalid : String
reason_all_invalid = "all_invalid"

abbrev pub reason_protected : String
reason_protected = "protected"

abbrev pub reason_resolved : String
reason_resolved = "resolved"

pub record ProtectOutcome : Type 0 where
  pub protected : Option String
  pub reason : String

pub record InvestigationOutcome : Type 0 where
  pub target : Option String
  pub finding : Option Finding
  pub reason : String

pub record DeathReveal : Type 0 where
  pub public_player_id : String
  pub role : Option Role
  pub faction : Option Faction
  pub cleaned : Bool

-- `first or target`: the empty text counts as missing.
abbrev first_or : Option String → Option String → Option String
first_or none target = target
first_or (some first) target = if first == "" then target else some first

-- The three values that the loop of `_resolve_protects` builds.
pub record Protects : Type 0 where
  pub first_protected : Option String
  pub protected_targets : List String
  pub outcomes : Dict String ProtectOutcome

unfoldable pub protect_step : NightActionIntent → Protects → Protects
protect_step intent p = record {
  first_protected = first_or p.first_protected intent.target;
  protected_targets = add_some intent.target p.protected_targets;
  outcomes =
      put intent.actor (record { protected = intent.target; reason = reason_protected }) p.outcomes;
}

unfoldable pub protect_loop : List NightActionIntent → Protects → Protects
unfolding protect_step
protect_loop [] p = p
protect_loop (intent ∷ intents) p = protect_loop intents (protect_step intent p)

unfoldable pub resolve_protects : List NightActionIntent → Protects
unfolding protect_loop
resolve_protects intents =
    protect_loop (tier_intents intents NightActionKind.protect)
      (record { first_protected = none; protected_targets = []; outcomes = [] })

abbrev cons_some : Option String → List String → List String
cons_some none ids = ids
cons_some (some id) ids = id ∷ ids

-- `[intent.target for intent in intents if intent.target is not None]`
unfoldable pub targets_of : List NightActionIntent → List String
targets_of [] = []
targets_of (intent ∷ intents) = cons_some intent.target (targets_of intents)

-- `Counter(ids)`
unfoldable pub counter : List String → Dict String ℕ → Dict String ℕ
counter [] tally = tally
counter (id ∷ ids) tally = counter ids (bump id 1 tally)

-- The target of a kill, the tally and the reason.
pub record KillVote : Type 0 where
  pub target : Option String
  pub vote_tally : Dict String ℕ
  pub reason : String

unfoldable pub kill_winner : List String → Dict String ℕ → KillVote
kill_winner (winner ∷ []) tally = record {
  target = some winner;
  vote_tally = tally;
  reason = reason_unique_plurality;
}
kill_winner _ tally = record { target = none; vote_tally = tally; reason = reason_tie }

unfoldable pub kill_vote : Dict String ℕ → KillVote
unfolding kill_winner
kill_vote [] = record { target = none; vote_tally = []; reason = reason_all_invalid }
kill_vote (entry ∷ entries) =
    let tally = entry ∷ entries in kill_winner (keys_at (max_value tally) tally) tally

unfoldable pub resolve_mafia_kill : List NightActionIntent → KillVote
unfolding kill_vote counter
resolve_mafia_kill intents =
    kill_vote (counter (targets_of (tier_intents intents NightActionKind.factional_kill)) [])

-- `_resolve_serial_kill` returns no tally.
unfoldable pub resolve_serial_kill : List NightActionIntent → Option String × String
unfolding kill_vote counter
resolve_serial_kill intents =
    let vote =
      kill_vote (counter (targets_of (tier_intents intents NightActionKind.serial_kill)) []) in
    (vote.target, vote.reason)

-- `{target for target in kill_targets if target is not None}`
unfoldable pub target_set : List (Option String) → List String
target_set [] = []
target_set (target ∷ targets) = add_some target (target_set targets)

unfoldable pub resolve_eliminated_ids :
    GameState → List (Option String) → (protected_targets : List String) → List String
unfolding target_set
resolve_eliminated_ids state kill_targets protected_targets =
    sort_ids state (diff (target_set kill_targets) protected_targets)

abbrev pub is_in : Option String → List String → Bool
is_in none ids = false
is_in (some id) ids = mem id ids

unfoldable pub protection_feedback :
    List NightActionIntent → List (Option String) → (eliminated : List String) → List NightFeedback
protection_feedback protect_intents kill_targets eliminated =
    let prevented = diff (target_set kill_targets) eliminated in
    map
      (λ intent.
        feedback_for intent.actor "PROTECTION_SUCCESSFUL" "Your protection prevented a kill."
          intent.target)
      (filter (λ intent. is_in intent.target prevented) protect_intents)

unfoldable pub id_set : List String → List String
id_set [] = []
id_set (id ∷ ids) = add id (id_set ids)

unfoldable pub actors_of : List NightActionIntent → List String
actors_of intents = map (λ intent. intent.actor) intents

unfoldable pub resolve_framed_targets :
    GameState → List NightActionIntent → List String × List String
resolve_framed_targets state intents =
    let frames = tier_intents intents NightActionKind.frame in
    (sort_ids state (id_set (targets_of frames)), sort_ids state (id_set (actors_of frames)))

unfoldable pub finding_for : Seat → (framed_targets : List String) → Finding
finding_for target framed_targets =
    if mem target.public_player_id framed_targets
    then Finding.mafia
    else if target.role == Role.godfather
    then Finding.town
    else if target.faction == Faction.mafia
    then Finding.mafia
    else Finding.town
