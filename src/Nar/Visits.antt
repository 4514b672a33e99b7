-- ===== src/Nar/Visits.antt =====
-- nar.py, the first tier: visits and feedback, and the roleblocks.
use padrino.Base.{
  Bool, false, ◌&&◌, ◌||◌, not, Option, none, some, List, [], ◌∷◌, ◌++◌, String, ◌==◌, add,
  if◌then◌else◌, string_eq,
}
use padrino.Game.{Role, role_eq, Seat, GameState, Finding, seat_by_public_id}
use padrino.Nar.Matrix.{NightActionKind, night_action_kind_eq, matrix_effect_eq, resolution_matrix}
use padrino.Nar.Intents.{NightActionIntent, sort_ids, alive_seat, valid_at, tier_intents}

pub record VisitRecord : Type 0 where
  pub actor : String
  pub target : String
  pub action_kind : NightActionKind
  pub blocked : Bool

pub record NightFeedback : Type 0 where
  pub recipient : String
  pub code : String
  pub message : String
  pub target : Option String
  pub finding : Option Finding
  pub visited_player_ids : List String
  pub visitor_player_ids : List String

-- The lists `visits` and `feedback` and the set `commuter_bounced_targets`, which the tiers append to.
pub record NightNotes : Type 0 where
  pub visits : List VisitRecord
  pub feedback : List NightFeedback
  pub commuter_bounced_targets : List String

-- Feedback with the defaults of the optional fields.
abbrev pub feedback_for : (recipient code message : String) → Option String → NightFeedback
feedback_for recipient code message target = record {
  recipient = recipient;
  code = code;
  message = message;
  target = target;
  finding = none;
  visited_player_ids = [];
  visitor_player_ids = [];
}

unfoldable pub blocked_feedback : NightActionIntent → NightFeedback
blocked_feedback intent =
    feedback_for intent.actor "ACTION_BLOCKED" "Your night action was blocked." intent.target

unfoldable pub commuter_bounce_feedback : NightActionIntent → NightFeedback
commuter_bounce_feedback intent =
    feedback_for intent.actor "COMMUTER_UNTARGETABLE"
      "Your night action could not target a commuter." intent.target

abbrev pub say : NightFeedback → NightNotes → NightNotes
say entry notes = record notes { feedback = notes.feedback ++ entry ∷ [] }

unfoldable pub suppresses_visit : GameState → NightActionIntent → Bool
suppresses_visit state intent =
    valid_at (seat_by_public_id state intent.actor)
      (λ actor. actor.role == Role.ninja && intent.kind == NightActionKind.factional_kill)

-- `target if target is not None else intent.target`
abbrev or_else : Option String → Option String → Option String
or_else none fallback = fallback
or_else (some t) fallback = some t

-- `_record_visit`, after `visit_target` is known.
unfoldable pub record_visit_at :
    GameState
    → NightActionIntent
    → (visit_target : Option String) → (blocked : Bool) → NightNotes
    → NightNotes
record_visit_at state intent none blocked notes = notes
record_visit_at state intent (some visit_target) blocked notes =
    let row = resolution_matrix intent.kind in
    if suppresses_visit state intent
    then notes
    else if row.records_visit && (not blocked || row.records_visit_when_blocked)
    then record notes {
      visits =
          notes.visits
          ++ record {
            actor = intent.actor;
            target = visit_target;
            action_kind = intent.kind;
            blocked = blocked;
          }
            ∷ [];
    }
    else notes

unfoldable pub record_visit :
    GameState
    → NightActionIntent
    → (target : Option String) → (blocked : Bool) → NightNotes
    → NightNotes
unfolding record_visit_at
record_visit state intent target blocked notes =
    record_visit_at state intent (or_else target intent.target) blocked notes

abbrev pub add_some : Option String → List String → List String
add_some none ids = ids
add_some (some id) ids = add id ids

abbrev pub commuter_of : Option Seat → Option String
commuter_of none = none
commuter_of (some seat) = if seat.role == Role.commuter then some seat.public_player_id else none

-- The player that bounces an action off: the target, if it is a living commuter.
unfoldable pub commuter_target : GameState → NightActionIntent → Option String
commuter_target state intent = commuter_of (alive_seat state intent.target)

abbrev pub bounce : String → NightActionIntent → NightNotes → NightNotes
bounce commuter intent notes =
    say (commuter_bounce_feedback intent)
      (record notes { commuter_bounced_targets = add commuter notes.commuter_bounced_targets })

-- The body of the loop of `_apply_roleblocks`.
unfoldable pub roleblock_step :
    GameState
    → NightActionIntent
    → Option String
    → List String × NightNotes
    → List String × NightNotes
roleblock_step state intent (some commuter) (blocked, notes) =
    (blocked, bounce commuter intent notes)
roleblock_step state intent none (blocked, notes) =
    (add_some intent.target blocked, record_visit state intent none false notes)

unfoldable pub roleblock_loop :
    GameState → List NightActionIntent → List String × NightNotes → List String × NightNotes
unfolding roleblock_step
roleblock_loop state [] acc = acc
roleblock_loop state (intent ∷ intents) acc =
    roleblock_loop state intents (roleblock_step state intent (commuter_target state intent) acc)

unfoldable pub apply_roleblocks :
    GameState → List NightActionIntent → NightNotes → List String × NightNotes
unfolding roleblock_loop
apply_roleblocks state intents notes =
    let (blocked, notes') =
      roleblock_loop state (tier_intents intents NightActionKind.roleblock) ([], notes) in
    (sort_ids state blocked, notes')
