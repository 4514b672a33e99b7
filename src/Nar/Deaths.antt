-- ===== src/Nar/Deaths.antt =====
-- Who dies in a night of nar.py.
use padrino.Base.{
  ◌<◌, ◌≡◌, refl, ap, ◌∙◌, ◌≢◌, ◌⊎◌, inl, inr, Bool, true, ◌&&◌, ◌||◌, not, Option, none, some,
  List, [], ◌∷◌, String, ◌==◌, mem, add, mem-diff, mem-add, mem-sort_by, All, string_eq, option_eq,
  arith, ltb, count_if, filter, Bool-cases, Option-cases,
}
use padrino.Game.{Faction, faction_eq, Role, role_eq, Seat, GameState, seat_by_public_id}
use padrino.Nar.Matrix.{NightActionKind, night_action_kind_eq}
use padrino.Nar.Intents.{NightActionIntent, sort_ids, id_le, seat_order, tier_intents, valid_kind}
use padrino.Nar.Tiers.{
  target_set, Protects, protect_loop, protect_step, resolve_protects, resolve_mafia_kill,
  resolve_serial_kill, resolve_eliminated_ids,
}
use padrino.Nar.Night.{NightPlan, plan_night, resolve_plan, resolve_night_actions}
use padrino.Nar.Active.{goes_on, plan_night-goes_on}
use padrino.Nar.Aims.{still_valid-Aim, goes_on-parts}
use padrino.Nar.Kills.{voter, votes_for, resolve_kills-IsMostVoted}

-- Some protect intent names the player.
unfoldable pub is_protected : List NightActionIntent → String → Bool
is_protected intents pid = ltb 0 (votes_for NightActionKind.protect intents pid)

protect_loop-mem :
    (intents : List NightActionIntent) (p : Protects) (pid : String)
    → mem pid (protect_loop (tier_intents intents NightActionKind.protect) p).protected_targets
      ≡ is_protected intents pid || mem pid p.protected_targets
unfolding protect_loop protect_step is_protected votes_for count_if tier_intents filter
protect_loop-mem [] p pid = refl
protect_loop-mem (intent ∷ intents) p pid = elim (Option-cases intent.target) [
  | inl e ↦ ground (
    arith,
    protect_loop-mem intents (protect_step intent p) pid,
    protect_loop-mem intents p pid,
    e,
  )
  | inr e ↦ ground (
    arith,
    protect_loop-mem intents (protect_step intent p) pid,
    protect_loop-mem intents p pid,
    mem-add pid e.0 p.protected_targets,
    e.1,
  )
]

mem-target_set :
    (mafia serial : Option String) (pid : String)
    → mem pid (target_set (mafia ∷ serial ∷ [])) ≡ mafia == some pid || serial == some pid
unfolding target_set mem
mem-target_set none none pid = ground arith
mem-target_set none (some s) pid = ground (arith, mem-add pid s [])
mem-target_set (some m) none pid = ground (arith, mem-add pid m [])
mem-target_set (some m) (some s) pid = ground (arith, mem-add pid m (add s []), mem-add pid s [])

pub mem-sort_ids :
    (state : GameState) (pid : String) (ids : List String)
    → mem pid (sort_ids state ids) ≡ mem pid ids
unfolding sort_ids
mem-sort_ids state pid ids = mem-sort_by (id_le (seat_order state)) pid ids

eliminated_ids-mem :
    (state : GameState) (mafia serial : Option String) (protected : List String) (pid : String)
    → mem pid (resolve_eliminated_ids state (mafia ∷ serial ∷ []) protected)
      ≡ (mafia == some pid || serial == some pid) && not (mem pid protected)
unfolding resolve_eliminated_ids
eliminated_ids-mem state mafia serial protected pid =
    mem-sort_ids state pid _
    ∙ mem-diff pid (target_set (mafia ∷ serial ∷ [])) protected
    ∙ ap (λ b. b && not (mem pid protected)) (mem-target_set mafia serial pid)

resolve_plan-eliminated :
    (state : GameState) (plan : NightPlan) (pid : String)
    → mem pid (resolve_plan state plan).eliminated_player_ids
      ≡ ((resolve_plan state plan).mafia_kill_target == some pid
          || (resolve_plan state plan).serial_kill_target == some pid)
        && not (is_protected plan.active_intents pid)
unfolding resolve_plan resolve_protects mem
resolve_plan-eliminated state plan pid = ground (
  arith,
  eliminated_ids-mem state (resolve_mafia_kill plan.active_intents).target
      (resolve_serial_kill plan.active_intents).0
      (resolve_protects plan.active_intents).protected_targets pid,
  protect_loop-mem plan.active_intents
      (record { first_protected = none; protected_targets = []; outcomes = [] }) pid,
)

module _ (state : GameState) (plan : NightPlan)
    (active : All (λ i. goes_on state plan.blocked_actor_ids i ≡ true) plan.active_intents) where
  kill_aim :
      (kind : NightActionKind) (pid : String)
      → 0 < votes_for kind plan.active_intents pid
      → (victim : Seat) × (seat_by_public_id state pid ≡ some victim)
        × (victim.alive ≡ true)
        × (victim.role ≢ Role.commuter)
        × (kind ≡ NightActionKind.factional_kill → victim.faction ≢ Faction.mafia)
  unfolding valid_kind
  kill_aim kind pid votes =
      let (i, goes, k, t) =
        voter (λ i. goes_on state plan.blocked_actor_ids i ≡ true) kind plan.active_intents pid
          active votes in
      let (still, commuter, _) = goes_on-parts state plan.blocked_actor_ids i goes in
      let aim = still_valid-Aim state i still in
      (
        aim.target,
        ground (arith, aim.target_named, aim.target_seat, t),
        aim.target_alive,
        aim.not_commuter commuter,
        λ factional. λ same. ground (arith, aim.allowed, k, factional, same),
      )

  resolve_plan-victim :
      (pid : String)
      → mem pid (resolve_plan state plan).eliminated_player_ids ≡ true
      → (victim : Seat) × (seat_by_public_id state pid ≡ some victim)
        × (victim.alive ≡ true)
        × (victim.role ≢ Role.commuter)
        × (((resolve_plan state plan).serial_kill_target ≡ some pid)
            ⊎ (victim.faction ≢ Faction.mafia))
  unfolding resolve_plan
  resolve_plan-victim pid m =
      let (mafia, serial) = resolve_kills-IsMostVoted plan.active_intents pid in
      let hit = resolve_plan-eliminated state plan pid in
      elim (Bool-cases ((resolve_mafia_kill plan.active_intents).target == some pid)) [
        | inl e ↦
            let (victim, seat, alive, role, faction) =
              kill_aim NightActionKind.factional_kill pid (mafia.0 (ground arith)).0 in
            (victim, seat, alive, role, inr (faction refl))
        | inr e ↦
            let target : (resolve_serial_kill plan.active_intents).0 ≡ some pid =
              ground (arith, hit, m, e) in
            let (victim, seat, alive, role, _) =
              kill_aim NightActionKind.serial_kill pid (serial.0 target).0 in
            (victim, seat, alive, role, inl target)
      ]

-- A player dies in the night exactly if the factional kill or the serial kill hits that player and
-- no protection that goes through covers them.
pub resolve_night_actions-eliminated :
    (state : GameState) (intents : List NightActionIntent) (pid : String)
    → mem pid (resolve_night_actions state intents).eliminated_player_ids
      ≡ ((resolve_night_actions state intents).mafia_kill_target == some pid
          || (resolve_night_actions state intents).serial_kill_target == some pid)
        && not (is_protected (plan_night state intents).active_intents pid)
unfolding resolve_night_actions resolve_plan
resolve_night_actions-eliminated state intents pid =
    resolve_plan-eliminated state (plan_night state intents) pid

-- Whoever dies in the night was alive and no commuter, and was hit by the serial kill or was no
-- member of the mafia.
pub resolve_night_actions-victim :
    (state : GameState) (intents : List NightActionIntent) (pid : String)
    → mem pid (resolve_night_actions state intents).eliminated_player_ids ≡ true
    → (victim : Seat) × (seat_by_public_id state pid ≡ some victim)
      × (victim.alive ≡ true)
      × (victim.role ≢ Role.commuter)
      × (((resolve_night_actions state intents).serial_kill_target ≡ some pid)
          ⊎ (victim.faction ≢ Faction.mafia))
unfolding resolve_night_actions resolve_plan
resolve_night_actions-victim state intents pid m =
    resolve_plan-victim state (plan_night state intents) (plan_night-goes_on state intents) pid m
