-- ===== src/Phases.antt =====
-- src/padrino/core/engine/phases.py: the finite state machine of the turn order. It reads the
-- phase and two constants of the ruleset, never the game state.
pub mod Schedule
use padrino.Base.{ℕ, zero, suc, ◌+◌, ltb, leb, ◌||◌, if◌then◌else◌, Result, ok, err, ◌>>=◌}
use padrino.Game.{Phase, PhaseKind}

-- The two members of the `Ruleset` protocol that the machine reads.
pub record PhaseRuleset : Type 0 where
  pub max_days : ℕ
  pub discussion_rounds_per_day : ℕ

-- The `ValueError`s that `next_phase` raises.
pub data PhaseError : Type 0 where
  invalid_discussion_round : (rnd day : ℕ) → PhaseError
  no_phase_follows_terminal : PhaseError

-- The body of `next_phase`, on the kind of the current phase.
unfoldable pub next_of : PhaseKind → (day rnd : ℕ) → PhaseRuleset → Result PhaseError Phase
next_of PhaseKind.setup day rnd rules =
    ok (record { kind = PhaseKind.night_0_mafia_intro; day = 0; round = 0 })
next_of PhaseKind.night_0_mafia_intro day rnd rules =
    ok (record { kind = PhaseKind.day_discussion; day = 1; round = 1 })
next_of PhaseKind.day_discussion day rnd rules =
    if ltb rnd 1 || ltb rules.discussion_rounds_per_day rnd
    then err (invalid_discussion_round rnd day)
    else if ltb rnd rules.discussion_rounds_per_day
    then ok (record { kind = PhaseKind.day_discussion; day = day; round = rnd + 1 })
    else ok (record { kind = PhaseKind.day_vote; day = day; round = 0 })
next_of PhaseKind.day_vote day rnd rules =
    ok (record { kind = PhaseKind.night_mafia_discussion; day = day; round = 0 })
next_of PhaseKind.night_mafia_discussion day rnd rules =
    ok (record { kind = PhaseKind.night_actions; day = day; round = 0 })
next_of PhaseKind.night_actions day rnd rules =
    if leb rules.max_days day
    then ok (record { kind = PhaseKind.terminal; day = day; round = 0 })
    else ok (record { kind = PhaseKind.day_discussion; day = day + 1; round = 1 })
next_of PhaseKind.terminal day rnd rules = err no_phase_follows_terminal

unfoldable pub next_phase : Phase → PhaseRuleset → Result PhaseError Phase
unfolding next_of
next_phase current rules = next_of current.kind current.day current.round rules

-- `next_phase` applied `n` times.
unfoldable pub advance : ℕ → Phase → PhaseRuleset → Result PhaseError Phase
advance zero p rules = ok p
advance (suc n) p rules = next_phase p rules >>= λ q. advance n q rules
