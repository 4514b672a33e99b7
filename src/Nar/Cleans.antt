-- ===== src/Nar/Cleans.antt =====
-- Which deaths are cleaned, and whose shots a night spends.
use padrino.Base.{
  ◌<◌, ◌≡◌, refl, ap, ◌∙◌, inl, inr, true, ◌&&◌, ◌||◌, some, List, [], ◌∷◌, String, ◌==◌, mem,
  mem-add, All, All-filter, ltb, filter, is_empty, string_eq, option_eq, arith, Bool-cases,
  Option-cases,
}
use mathlib.Core.Path.{subst}
use padrino.Game.{
  role_eq, Seat, GameState, seat_by_public_id, janitor_clean_shots_remaining,
  framer_frame_shots_remaining,
}
use padrino.Nar.Matrix.{NightActionKind, night_action_kind_eq}
use padrino.Nar.Intents.{NightActionIntent, tier_intents, valid_kind}
use padrino.Nar.Tiers.{targets_of, actors_of, id_set, is_in, resolve_framed_targets}
use padrino.Nar.Reads.{resolve_cleaned_deaths}
use padrino.Nar.Night.{
  NightPlan, plan_night, resolve_plan, resolve_night_actions, MatrixNightResolution,
}
use padrino.Nar.Active.{goes_on, plan_night-goes_on}
use padrino.Nar.Aims.{still_valid-Aim, goes_on-parts}
use padrino.Nar.Kills.{votes_for, mem-count, count-targets}
use padrino.Nar.Deaths.{mem-sort_ids}

mem-id_set : (pid : String) (ids : List String) → mem pid (id_set ids) ≡ mem pid ids
unfolding id_set mem
mem-id_set pid [] = refl
mem-id_set pid (id ∷ ids) = ground (arith, mem-add pid id (id_set ids), mem-id_set pid ids)

pub tier-All :
    (P : NightActionIntent → Type 0) (kind : NightActionKind) (intents : List NightActionIntent)
    → All P intents
    → All (λ i. P i × (i.kind ≡ kind)) (tier_intents intents kind)
unfolding tier_intents filter
tier-All P kind [] h = tt
tier-All P kind (intent ∷ intents) h = elim (Bool-cases (intent.kind == kind)) [
  | inl e ↦ rw e ((h.0, ground arith), tier-All P kind intents h.1)
  | inr e ↦ rw e (tier-All P kind intents h.1)
]

actor_of :
    (P : NightActionIntent → Type 0) (intents : List NightActionIntent) (pid : String)
    → All P intents
    → mem pid (actors_of intents) ≡ true
    → (i : NightActionIntent) × P i × (i.actor ≡ pid)
unfolding actors_of mem
actor_of P [] pid h m = absurd (ground arith)
actor_of P (intent ∷ intents) pid h m = elim (Bool-cases (intent.actor == pid)) [
  | inl e ↦ (intent, h.0, ground arith)
  | inr e ↦ actor_of P intents pid h.1 (ground arith)
]

mem-targets_of :
    (kind : NightActionKind) (intents : List NightActionIntent) (pid : String)
    → mem pid (targets_of (tier_intents intents kind)) ≡ ltb 0 (votes_for kind intents pid)
mem-targets_of kind intents pid =
    let ids = targets_of (tier_intents intents kind) in
    ground (arith, (mem-count pid ids).0, (mem-count pid ids).1, count-targets kind intents pid)

targets_of-is_in :
    (ids : List String) (intents : List NightActionIntent) (pid : String)
    → mem pid (targets_of (filter (λ i. is_in i.target ids) intents))
      ≡ mem pid ids && mem pid (targets_of intents)
unfolding targets_of filter mem
targets_of-is_in ids [] pid = ground arith
targets_of-is_in ids (intent ∷ intents) pid = elim (Option-cases intent.target) [
  | inl e ↦ ground (arith, targets_of-is_in ids intents pid, e)
  | inr e ↦ ground (arith, targets_of-is_in ids intents pid, e.1)
]

is_empty-is_in :
    (ids : List String) (intents : List NightActionIntent)
    → is_empty ids ≡ true
    → filter (λ i. is_in i.target ids) intents ≡ []
unfolding filter is_empty mem
is_empty-is_in [] [] e = refl
is_empty-is_in [] (i ∷ is) e = elim (Option-cases i.target) [
  | inl t ↦ rw t (is_empty-is_in [] is e)
  | inr t ↦ rw (t.1) (is_empty-is_in [] is e)
]
is_empty-is_in (id ∷ ids) intents e = absurd (ground arith)

is_empty_lem : (intents : List NightActionIntent) → is_empty intents ≡ true → intents ≡ []
unfolding is_empty
is_empty_lem [] e = refl
is_empty_lem (i ∷ is) e = absurd (ground arith)

module _ (state : GameState) (intents : List NightActionIntent) (eliminated : List String) where
  abbrev cleans : List NightActionIntent
  cleans =
      filter (λ intent. is_in intent.target eliminated) (tier_intents intents NightActionKind.clean)

  no_cleans : is_empty eliminated || is_empty cleans ≡ true → cleans ≡ []
  no_cleans e = elim (Bool-cases (is_empty eliminated)) [
    | inl h ↦ is_empty-is_in eliminated (tier_intents intents NightActionKind.clean) h
    | inr h ↦ is_empty_lem cleans (ground arith)
  ]

  resolve_cleaned_deaths-mem :
      (pid : String)
      → (mem pid (resolve_cleaned_deaths state intents eliminated).0 ≡ mem pid (targets_of cleans))
        × (mem pid (resolve_cleaned_deaths state intents eliminated).1 ≡ mem pid (actors_of cleans))
  unfolding resolve_cleaned_deaths targets_of actors_of mem
  resolve_cleaned_deaths-mem pid = elim (Bool-cases (is_empty eliminated || is_empty cleans)) [
    | inl e ↦ let none_left = no_cleans e in rw e (rw none_left (refl, refl))
    | inr e ↦ rw e (
      mem-sort_ids state pid _ ∙ mem-id_set pid (targets_of cleans),
      mem-sort_ids state pid _ ∙ mem-id_set pid (actors_of cleans),
    )
  ]

  -- A death is cleaned exactly if a clean that goes through names the dead player.
  resolve_cleaned_deaths_iff :
      (pid : String)
      → mem pid (resolve_cleaned_deaths state intents eliminated).0
        ≡ mem pid eliminated && ltb 0 (votes_for NightActionKind.clean intents pid)
  resolve_cleaned_deaths_iff pid =
      (resolve_cleaned_deaths-mem pid).0
      ∙ targets_of-is_in eliminated (tier_intents intents NightActionKind.clean) pid
      ∙ ap (λ b. mem pid eliminated && b) (mem-targets_of NightActionKind.clean intents pid)

-- `pid` is the id of a living seat with a shot left.
abbrev pub HasCleanShot : GameState → String → Type 0
HasCleanShot state pid =
    (seat : Seat) × (seat_by_public_id state pid ≡ some seat)
    × (seat.alive ≡ true)
    × (0 < janitor_clean_shots_remaining seat)

abbrev pub HasFrameShot : GameState → String → Type 0
HasFrameShot state pid =
    (seat : Seat) × (seat_by_public_id state pid ≡ some seat)
    × (seat.alive ≡ true)
    × (0 < framer_frame_shots_remaining seat)

module _ (state : GameState) (blocked : List String) where
  cleaner_shot :
      (i : NightActionIntent)
      → goes_on state blocked i ≡ true
      → i.kind ≡ NightActionKind.clean
      → HasCleanShot state i.actor
  unfolding valid_kind
  cleaner_shot i goes k =
      let aim = still_valid-Aim state i (goes_on-parts state blocked i goes).0 in
      (aim.actor, aim.actor_seat, aim.actor_alive, ground (arith, aim.allowed, k))

  framer_shot :
      (i : NightActionIntent)
      → goes_on state blocked i ≡ true
      → i.kind ≡ NightActionKind.frame
      → HasFrameShot state i.actor
  unfolding valid_kind
  framer_shot i goes k =
      let aim = still_valid-Aim state i (goes_on-parts state blocked i goes).0 in
      (aim.actor, aim.actor_seat, aim.actor_alive, ground (arith, aim.allowed, k))

module _ (state : GameState) (plan : NightPlan)
    (active : All (λ i. goes_on state plan.blocked_actor_ids i ≡ true) plan.active_intents) where
  tier_active :
      (kind : NightActionKind)
      → All
          (λ i. (goes_on state plan.blocked_actor_ids i ≡ true) × (i.kind ≡ kind))
          (tier_intents plan.active_intents kind)
  tier_active kind =
      tier-All (λ i. goes_on state plan.blocked_actor_ids i ≡ true) kind plan.active_intents active

  spent_clean :
      (eliminated : List String) (pid : String)
      → mem pid (resolve_cleaned_deaths state plan.active_intents eliminated).1 ≡ true
      → HasCleanShot state pid
  spent_clean eliminated pid m =
      let named = resolve_cleaned_deaths-mem state plan.active_intents eliminated pid in
      let (i, (goes, kind), same) =
        actor_of _ (cleans state plan.active_intents eliminated) pid
          (All-filter _ (λ i. is_in i.target eliminated) _ (tier_active NightActionKind.clean))
          (ground (arith, m, named.1)) in
      subst (HasCleanShot state) same (cleaner_shot state plan.blocked_actor_ids i goes kind)

  spent_frame :
      (pid : String)
      → mem pid (resolve_framed_targets state plan.active_intents).1 ≡ true
      → HasFrameShot state pid
  unfolding resolve_framed_targets
  spent_frame pid m =
      let frames = tier_intents plan.active_intents NightActionKind.frame in
      let (i, (goes, kind), same) = actor_of _ frames pid (tier_active NightActionKind.frame) (
        ground (
          arith,
          m,
          mem-sort_ids state pid (id_set (actors_of frames)),
          mem-id_set pid (actors_of frames),
        )) in
      subst (HasFrameShot state) same (framer_shot state plan.blocked_actor_ids i goes kind)

  resolve_plan-clean_spent :
      (pid : String)
      → mem pid (resolve_plan state plan).clean_spent_actor_ids ≡ true
      → HasCleanShot state pid
  unfolding resolve_plan
  resolve_plan-clean_spent pid m = spent_clean _ pid m

  resolve_plan-frame_spent :
      (pid : String)
      → mem pid (resolve_plan state plan).frame_spent_actor_ids ≡ true
      → HasFrameShot state pid
  unfolding resolve_plan
  resolve_plan-frame_spent pid m = spent_frame pid m

module _ (state : GameState) (intents : List NightActionIntent) (pid : String) where
  abbrev night : MatrixNightResolution
  night = resolve_night_actions state intents

  -- A night spends the clean shot of a player only if a living seat of that player has one left.
  pub resolve_night_actions-clean_spent :
      mem pid night.clean_spent_actor_ids ≡ true → HasCleanShot state pid
  unfolding resolve_night_actions
  resolve_night_actions-clean_spent =
      resolve_plan-clean_spent state (plan_night state intents) (plan_night-goes_on state intents)
        pid

  -- A night spends the frame shot of a player only if a living seat of that player has one left.
  pub resolve_night_actions-frame_spent :
      mem pid night.frame_spent_actor_ids ≡ true → HasFrameShot state pid
  unfolding resolve_night_actions
  resolve_night_actions-frame_spent =
      resolve_plan-frame_spent state (plan_night state intents) (plan_night-goes_on state intents)
        pid

  -- The cleaned deaths of a night are exactly the deaths that a clean names which goes through.
  pub resolve_night_actions-cleaned :
      mem pid night.cleaned_deaths
      ≡ mem pid night.eliminated_player_ids
        && ltb 0 (votes_for NightActionKind.clean (plan_night state intents).active_intents pid)
  unfolding resolve_night_actions resolve_plan
  resolve_night_actions-cleaned =
      resolve_cleaned_deaths_iff state (plan_night state intents).active_intents
        night.eliminated_player_ids pid
