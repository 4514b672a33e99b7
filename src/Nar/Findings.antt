-- ===== src/Nar/Findings.antt =====
-- What a detective learns in a night of nar.py.
use padrino.Base.{
  ◌≡◌, refl, inl, inr, true, false, ◌&&◌, ◌||◌, not, Option, none, some, is_some, List, [], ◌∷◌,
  String, ◌==◌, mem, All, string_eq, option_eq, arith, if◌then◌else◌, Bool-cases, Option-cases,
}
use padrino.Game.{Faction, faction_eq, Role, role_eq, Seat, GameState, Finding, seat_by_public_id}
use padrino.Nar.Matrix.{NightActionKind, night_action_kind_eq}
use padrino.Nar.Intents.{NightActionIntent, tier_intents, valid_at, valid_kind}
use padrino.Nar.Tiers.{finding_for}
use padrino.Nar.Reads.{
  Investigations, investigate_seat, investigate_target, investigate_loop, resolve_investigations,
}
use padrino.Nar.Night.{NightPlan, plan_night, resolve_plan, resolve_night_actions}
use padrino.Nar.Active.{goes_on, plan_night-goes_on}
use padrino.Nar.Aims.{still_valid-Aim, goes_on-parts}
use padrino.Nar.Cleans.{tier-All}

-- The finding on a player with a seat: framed players and members of the mafia are found mafia,
-- except an unframed godfather; everyone else is found town.
abbrev pub IsFindingOf : GameState → (framed : List String) → String × Finding → Type 0
IsFindingOf state framed (pid, finding) =
    (seat : Seat) × (seat_by_public_id state pid ≡ some seat)
    × (finding ≡ (
        if mem seat.public_player_id framed
          || (seat.faction == Faction.mafia && not (seat.role == Role.godfather))
        then Finding.mafia
        else Finding.town))

-- A living detective who survives the night.
abbrev pub HasDetective : GameState → (eliminated : List String) → Type 0
HasDetective state eliminated =
    (pid : String) × (detective : Seat) × (seat_by_public_id state pid ≡ some detective)
    × (detective.alive ≡ true)
    × (detective.role ≡ Role.detective)
    × (mem pid eliminated ≡ false)

abbrev IsLearnt : GameState → (eliminated framed : List String) → Option (String × Finding) → Type 0
IsLearnt state eliminated framed none = Unit
IsLearnt state eliminated framed (some found) =
    IsFindingOf state framed found × HasDetective state eliminated

module _ (state : GameState) (blocked eliminated framed : List String) where
  finding_for_lem :
      (seat : Seat)
      → finding_for seat framed ≡ (
          if mem seat.public_player_id framed
            || (seat.faction == Faction.mafia && not (seat.role == Role.godfather))
          then Finding.mafia
          else Finding.town)
  unfolding finding_for
  finding_for_lem seat = ground arith

  investigator :
      (i : NightActionIntent)
      → (goes_on state blocked i ≡ true) × (i.kind ≡ NightActionKind.investigate)
      → mem i.actor eliminated ≡ false
      → HasDetective state eliminated
  unfolding valid_kind
  investigator i k e =
      let aim = still_valid-Aim state i (goes_on-parts state blocked i k.0).0 in
      (i.actor, aim.actor, aim.actor_seat, aim.actor_alive, ground (arith, aim.allowed, k.1), e)

  investigate_seat-IsLearnt :
      (i : NightActionIntent) (pid : String) (seat : Seat) (inv : Investigations)
      → (goes_on state blocked i ≡ true) × (i.kind ≡ NightActionKind.investigate)
      → i.target ≡ some pid
      → seat_by_public_id state pid ≡ some seat
      → IsLearnt state eliminated framed inv.detective_finding
      → IsLearnt state eliminated framed
          (investigate_seat state eliminated framed i pid seat inv).detective_finding
  unfolding investigate_seat
  investigate_seat-IsLearnt i pid seat inv k t found h =
      elim (Bool-cases (mem i.actor eliminated)) [
        | inl e ↦ rw e h
        | inr e ↦
            rw e
              (elim (Bool-cases (
                valid_at (seat_by_public_id state i.actor) (λ actor. actor.role == Role.detective)
                && not (is_some inv.detective_finding))) [
                  | inl n ↦ rw n ((seat, found, finding_for_lem seat), investigator i k e)
                  | inr n ↦ rw n h
                ])
      ]

  investigate_target-IsLearnt :
      (i : NightActionIntent) (target : Option String) (inv : Investigations)
      → (goes_on state blocked i ≡ true) × (i.kind ≡ NightActionKind.investigate)
      → i.target ≡ target
      → IsLearnt state eliminated framed inv.detective_finding
      → IsLearnt state eliminated framed
          (investigate_target state eliminated framed i target inv).detective_finding
  unfolding investigate_target
  investigate_target-IsLearnt i none inv k t h = h
  investigate_target-IsLearnt i (some pid) inv k t h =
      elim (Option-cases (seat_by_public_id state pid)) [
        | inl e ↦ rw e h
        | inr e ↦
            let (seat, found) = e in rw found (investigate_seat-IsLearnt i pid seat inv k t found h)
      ]

  investigate_loop-IsLearnt :
      (intents : List NightActionIntent) (inv : Investigations)
      → All (λ i. (goes_on state blocked i ≡ true) × (i.kind ≡ NightActionKind.investigate)) intents
      → IsLearnt state eliminated framed inv.detective_finding
      → IsLearnt state eliminated framed
          (investigate_loop state eliminated framed intents inv).detective_finding
  unfolding investigate_loop
  investigate_loop-IsLearnt [] inv k h = h
  investigate_loop-IsLearnt (i ∷ is) inv k h =
      investigate_loop-IsLearnt is _ k.1 (investigate_target-IsLearnt i i.target inv k.0 refl h)

resolve_plan-finding :
    (state : GameState) (plan : NightPlan)
    → All (λ i. goes_on state plan.blocked_actor_ids i ≡ true) plan.active_intents
    → IsLearnt state
        (resolve_plan state plan).eliminated_player_ids
        (resolve_plan state plan).framed_targets
        (resolve_plan state plan).detective_finding
unfolding resolve_plan resolve_investigations
resolve_plan-finding state plan active =
    investigate_loop-IsLearnt state plan.blocked_actor_ids _ _
      (tier_intents plan.active_intents NightActionKind.investigate) _
      (tier-All (λ i. goes_on state plan.blocked_actor_ids i ≡ true) NightActionKind.investigate
        plan.active_intents active)
      tt

learnt :
    (state : GameState) (eliminated framed : List String) (o : Option (String × Finding))
    → (found : String × Finding) → o ≡ some found
    → IsLearnt state eliminated framed o
    → IsFindingOf state framed found × HasDetective state eliminated
learnt state eliminated framed o found e l = rw e at l

-- A detective's finding of a night is on a player with a seat: mafia for a framed player and for a
-- member of the mafia other than the godfather, and town for everyone else. A living detective
-- survives that night.
pub resolve_night_actions-finding :
    (state : GameState) (intents : List NightActionIntent) (found : String × Finding)
    → (resolve_night_actions state intents).detective_finding ≡ some found
    → IsFindingOf state (resolve_night_actions state intents).framed_targets found
      × HasDetective state (resolve_night_actions state intents).eliminated_player_ids
unfolding resolve_night_actions
resolve_night_actions-finding state intents found e =
    learnt state _ _ _ found e
      (resolve_plan-finding state (plan_night state intents) (plan_night-goes_on state intents))
