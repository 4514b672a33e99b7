-- ===== src/Nar/Protects.antt =====
-- Whom the doctors of a night of nar.py protect.
use padrino.Base.{
  ◌≡◌, ◌≢◌, true, none, some, List, [], ◌∷◌, String, ◌==◌, All, get, get-put, Bool-cases, inl, inr,
  string_eq, option_eq, arith,
}
use mathlib.Core.Path.{subst}
use padrino.Game.{Role, role_eq, Seat, GameState, seat_by_public_id}
use padrino.Nar.Matrix.{NightActionKind, night_action_kind_eq}
use padrino.Nar.Intents.{NightActionIntent, tier_intents, valid_kind}
use padrino.Nar.Tiers.{
  reason_protected, ProtectOutcome, Protects, protect_step, protect_loop, resolve_protects,
}
use padrino.Nar.Night.{NightPlan, plan_night, resolve_plan, resolve_night_actions}
use padrino.Nar.Active.{goes_on, plan_night-goes_on}
use padrino.Nar.Aims.{still_valid-Aim, goes_on-parts}
use padrino.Nar.Cleans.{tier-All}

-- The living doctor of the id protects the living player of the outcome, whom the doctor did not
-- protect the night before.
abbrev pub IsProtectOf : GameState → String → ProtectOutcome → Type 0
IsProtectOf state pid outcome =
    (doctor : Seat) × (target : Seat) × (target_id : String) × (seat_by_public_id state pid
      ≡ some doctor)
    × (doctor.alive ≡ true)
    × (doctor.role ≡ Role.doctor)
    × (outcome.protected ≡ some target_id)
    × (seat_by_public_id state target_id ≡ some target)
    × (target.alive ≡ true)
    × (doctor.last_protected_target ≢ some target_id)

module _ (state : GameState) (blocked : List String) where
  protect_of :
      (i : NightActionIntent) (outcome : ProtectOutcome)
      → (goes_on state blocked i ≡ true) × (i.kind ≡ NightActionKind.protect)
      → outcome.protected ≡ i.target
      → IsProtectOf state i.actor outcome
  unfolding valid_kind
  protect_of i outcome k same =
      let aim = still_valid-Aim state i (goes_on-parts state blocked i k.0).0 in
      (
        aim.actor,
        aim.target,
        aim.target_id,
        aim.actor_seat,
        aim.actor_alive,
        ground (arith, aim.allowed, k.1),
        ground (arith, same, aim.target_named),
        aim.target_seat,
        aim.target_alive,
        λ last. ground (arith, aim.allowed, k.1, last),
      )

  step_outcome :
      (i : NightActionIntent) (p : Protects) (pid : String)
      → (goes_on state blocked i ≡ true) × (i.kind ≡ NightActionKind.protect)
      → ((o : ProtectOutcome) → get pid p.outcomes ≡ some o → IsProtectOf state pid o)
      → (o : ProtectOutcome) → get pid (protect_step i p).outcomes ≡ some o
      → IsProtectOf state pid o
  unfolding protect_step
  step_outcome i p pid k h o found =
      let entry : ProtectOutcome = record { protected = i.target; reason = reason_protected } in
      let outcomes = get-put i.actor pid entry p.outcomes in
      elim (Bool-cases (i.actor == pid)) [
        | inl same ↦
            let actor : i.actor ≡ pid = ground (arith, same) in
            let written : entry ≡ o = ground (arith, outcomes, found, same) in
            subst (λ q. IsProtectOf state q o) actor (protect_of i o k (ground (arith, written)))
        | inr other ↦ h o (ground (arith, outcomes, found, other))
      ]

  protect_loop-IsProtectOf :
      (intents : List NightActionIntent) (p : Protects) (pid : String) (outcome : ProtectOutcome)
      → All (λ i. (goes_on state blocked i ≡ true) × (i.kind ≡ NightActionKind.protect)) intents
      → ((o : ProtectOutcome) → get pid p.outcomes ≡ some o → IsProtectOf state pid o)
      → get pid (protect_loop intents p).outcomes ≡ some outcome
      → IsProtectOf state pid outcome
  unfolding protect_loop protect_step
  protect_loop-IsProtectOf [] p pid outcome k h e = h outcome e
  protect_loop-IsProtectOf (i ∷ is) p pid outcome k h e =
      protect_loop-IsProtectOf is (protect_step i p) pid outcome k.1 (step_outcome i p pid k.0 h) e

resolve_plan-protects :
    (state : GameState) (plan : NightPlan) (pid : String) (outcome : ProtectOutcome)
    → All (λ i. goes_on state plan.blocked_actor_ids i ≡ true) plan.active_intents
    → get pid (resolve_plan state plan).protect_outcomes ≡ some outcome
    → IsProtectOf state pid outcome
unfolding resolve_plan resolve_protects
resolve_plan-protects state plan pid outcome active e =
    protect_loop-IsProtectOf state plan.blocked_actor_ids
      (tier_intents plan.active_intents NightActionKind.protect)
      (record { first_protected = none; protected_targets = []; outcomes = [] }) pid outcome
      (tier-All (λ i. goes_on state plan.blocked_actor_ids i ≡ true) NightActionKind.protect
        plan.active_intents active)
      (λ o found. absurd (unfold get in ground (arith, found))) e

-- Each protection that a night reports is of a living player, by a living doctor who did not protect
-- that player the night before.
pub resolve_night_actions-IsProtectOf :
    (state : GameState) (intents : List NightActionIntent) (pid : String) (outcome : ProtectOutcome)
    → get pid (resolve_night_actions state intents).protect_outcomes ≡ some outcome
    → IsProtectOf state pid outcome
unfolding resolve_night_actions
resolve_night_actions-IsProtectOf state intents pid outcome e =
    resolve_plan-protects state (plan_night state intents) pid outcome
      (plan_night-goes_on state intents) e
