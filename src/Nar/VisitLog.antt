-- ===== src/Nar/VisitLog.antt =====
-- The visits that a night of nar.py records.
use padrino.Base.{◌≡◌, false, ◌&&◌, ◌==◌, All, string_eq, option_eq}
use padrino.Game.{Role, role_eq, GameState, seat_by_public_id}
use padrino.Nar.Matrix.{NightActionKind, night_action_kind_eq, matrix_effect_eq}
use padrino.Nar.Intents.{valid_at}
use padrino.Nar.Visits.{VisitRecord, NightNotes}

-- A visit that was made: its actor was not blocked, and it is no factional kill of a ninja.
abbrev pub IsMade : GameState → VisitRecord → Type 0
IsMade state v =
    (v.blocked ≡ false)
    × (valid_at (seat_by_public_id state v.actor)
          (λ actor. actor.role == Role.ninja && v.action_kind == NightActionKind.factional_kill)
        ≡ false)

abbrev AreMade : GameState → NightNotes → Type 0
AreMade state notes = All (IsMade state) notes.visits
