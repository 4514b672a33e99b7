-- ===== src/Phases/Schedule.antt =====
-- The schedule that the phase machine walks: which phases it reaches, and how many are left.
use padrino.Base.{
  ℕ, zero, suc, ◌+◌, ◌-◌, ◌*◌, ◌≤◌, ◌<◌, ◌≡◌, refl, ◌≢◌, ◌⊎◌, inl, inr, ap, arith, ltb, leb,
  Bool-cases, Result, ok,
}
use padrino.Game.{Phase, PhaseKind}
use padrino.Phases.{PhaseRuleset, PhaseError, next_of, next_phase, advance}

-- A ruleset with at least one day and at least one round of discussion in a day.
abbrev pub IsPlayable : PhaseRuleset → Type 0
IsPlayable r = (1 ≤ r.max_days) × (1 ≤ r.discussion_rounds_per_day)

abbrev ScheduledAt : PhaseKind → (day rnd : ℕ) → PhaseRuleset → Type 0
ScheduledAt PhaseKind.setup day rnd r = Unit
ScheduledAt PhaseKind.night_0_mafia_intro day rnd r = Unit
ScheduledAt PhaseKind.day_discussion day rnd r =
    (1 ≤ day) × (day ≤ r.max_days) × (1 ≤ rnd) × (rnd ≤ r.discussion_rounds_per_day)
ScheduledAt PhaseKind.terminal day rnd r = day ≡ r.max_days
ScheduledAt _ day rnd r = (1 ≤ day) × (day ≤ r.max_days)

-- The phases of the schedule: days 1 to `max_days`, rounds 1 to `discussion_rounds_per_day`.
abbrev IsScheduled : PhaseRuleset → Phase → Type 0
IsScheduled r p = ScheduledAt p.kind p.day p.round r

abbrev day_length : PhaseRuleset → ℕ
day_length r = r.discussion_rounds_per_day + 3

left_at : PhaseKind → (day rnd : ℕ) → PhaseRuleset → ℕ
left_at PhaseKind.setup day rnd r = 2 + r.max_days * day_length r
left_at PhaseKind.night_0_mafia_intro day rnd r = 1 + r.max_days * day_length r
left_at PhaseKind.day_discussion day rnd r =
    (r.discussion_rounds_per_day - rnd) + 4 + (r.max_days - day) * day_length r
left_at PhaseKind.day_vote day rnd r = 3 + (r.max_days - day) * day_length r
left_at PhaseKind.night_mafia_discussion day rnd r = 2 + (r.max_days - day) * day_length r
left_at PhaseKind.night_actions day rnd r = 1 + (r.max_days - day) * day_length r
left_at PhaseKind.terminal day rnd r = 0

-- How many phases follow `p` up to and including TERMINAL.
unfoldable pub phases_left : PhaseRuleset → Phase → ℕ
unfolding left_at
phases_left r p = left_at p.kind p.day p.round r

-- Days left before and after a night: `(m - d) * l` loses one `l` when `d` grows below `m`.
one_day : (m d l : ℕ) → d < m → (m - d) * l ≡ l + (m - (d + 1)) * l
one_day m d l h =
    let e : m - d ≡ suc (m - (d + 1)) = omega arith in omega (arith, ap (λ (t : ℕ). t * l) e)

first_day : (m l : ℕ) → 0 < m → m * l ≡ l + (m - 1) * l
first_day m l h = let e : m ≡ suc (m - 1) = omega arith in omega (arith, ap (λ (t : ℕ). t * l) e)

-- From a scheduled phase other than TERMINAL the machine goes to a scheduled phase, and one phase
-- fewer is left.
abbrev pub Goes : PhaseRuleset → Result PhaseError Phase → ℕ → Type 0
Goes r result left =
    (q : Phase) × (result ≡ ok q) × IsScheduled r q × (left ≡ suc (phases_left r q))

step_at :
    (kind : PhaseKind) (day rnd : ℕ) (r : PhaseRuleset)
    → IsPlayable r
    → ScheduledAt kind day rnd r
    → (kind ≡ PhaseKind.terminal) ⊎ Goes r (next_of kind day rnd r) (left_at kind day rnd r)
unfolding left_at next_of phases_left
step_at PhaseKind.setup day rnd r v s =
    inr (record { kind = PhaseKind.night_0_mafia_intro; day = 0; round = 0 }, refl, tt, omega arith)
step_at PhaseKind.night_0_mafia_intro day rnd r v s = inr (
  record { kind = PhaseKind.day_discussion; day = 1; round = 1 },
  refl,
  omega arith,
  omega (arith, first_day r.max_days (day_length r) v.0),
)
step_at PhaseKind.day_discussion day rnd r v s =
    elim (Bool-cases (ltb rnd r.discussion_rounds_per_day)) [
      | inl more ↦ inr (
        record { kind = PhaseKind.day_discussion; day = day; round = rnd + 1 },
        ground arith,
        ground arith,
        ground arith,
      )
      | inr last ↦ inr (
        record { kind = PhaseKind.day_vote; day = day; round = 0 },
        ground arith,
        ground arith,
        ground arith,
      )
    ]
step_at PhaseKind.day_vote day rnd r v s =
    inr (
      record { kind = PhaseKind.night_mafia_discussion; day = day; round = 0 },
      refl,
      s,
      omega arith,
    )
step_at PhaseKind.night_mafia_discussion day rnd r v s =
    inr (record { kind = PhaseKind.night_actions; day = day; round = 0 }, refl, s, omega arith)
step_at PhaseKind.night_actions day rnd r v s = elim (Bool-cases (leb r.max_days day)) [
  | inl over ↦ inr (
    record { kind = PhaseKind.terminal; day = day; round = 0 },
    ground arith,
    ground arith,
    ground arith,
  )
  | inr more ↦ inr (
    record { kind = PhaseKind.day_discussion; day = day + 1; round = 1 },
    ground arith,
    ground arith,
    ground (arith, one_day r.max_days day (day_length r) (ground arith)),
  )
]
step_at PhaseKind.terminal day rnd r v s = inl refl

module _ (r : PhaseRuleset) (v : IsPlayable r) where
  -- In a playable ruleset, at a scheduled phase other than TERMINAL `next_phase` returns a scheduled
  -- phase: it does not raise, and exactly one phase fewer is left.
  pub next_phase-IsScheduled :
      (p : Phase)
      → IsScheduled r p
      → p.kind ≢ PhaseKind.terminal
      → Goes r (next_phase p r) (phases_left r p)
  unfolding next_phase phases_left
  next_phase-IsScheduled p s live = elim (step_at p.kind p.day p.round r v s) [
    | inl over ↦ absurd (live over)
    | inr goes ↦ goes
  ]

  at_terminal :
      (kind : PhaseKind) (day rnd : ℕ)
      → kind ≡ PhaseKind.terminal
      → ScheduledAt kind day rnd r
      → (left_at kind day rnd r ≡ 0) × (day ≡ r.max_days)
  unfolding left_at
  at_terminal PhaseKind.terminal day rnd e s = (refl, s)
  at_terminal PhaseKind.setup day rnd e s = cc
  at_terminal _ day rnd e s = cc

  -- `n` phases before the end, `n` steps reach the end.
  advance_left :
      (n : ℕ) (p : Phase)
      → phases_left r p ≡ n
      → IsScheduled r p
      → (q : Phase) × (advance n p r ≡ ok q) × (q.kind ≡ PhaseKind.terminal) × (q.day ≡ r.max_days)
  unfolding advance phases_left next_phase
  advance_left zero p e s = elim (step_at p.kind p.day p.round r v s) [
    | inl over ↦ (p, refl, over, (at_terminal p.kind p.day p.round over s).1)
    | inr goes ↦ absurd (omega (arith, goes.3))
  ]
  advance_left (suc n) p e s = elim (step_at p.kind p.day p.round r v s) [
    | inl over ↦ absurd (omega (arith, (at_terminal p.kind p.day p.round over s).0))
    | inr goes ↦
        let (t, run, over, last) = advance_left n goes.0 (omega (arith, goes.3)) goes.2 in
        (t, rw goes.1 run, over, last)
  ]

  -- In a playable ruleset, `2 + max_days * (rounds + 3)` calls of `next_phase` from SETUP all return,
  -- and the last one returns TERMINAL on day `max_days`.
  pub advance-setup :
      (day rnd : ℕ)
      → (q : Phase) × (advance
            (2 + r.max_days * (r.discussion_rounds_per_day + 3))
            (record { kind = PhaseKind.setup; day = day; round = rnd })
            r
          ≡ ok q)
        × (q.kind ≡ PhaseKind.terminal)
        × (q.day ≡ r.max_days)
  unfolding phases_left
  advance-setup day rnd =
      advance_left _ (record { kind = PhaseKind.setup; day = day; round = rnd }) refl tt
