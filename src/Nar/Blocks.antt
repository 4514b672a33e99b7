-- ===== src/Nar/Blocks.antt =====
-- Whom the roleblocks of a night of nar.py block.
use padrino.Base.{
  ◌≡◌, refl, ◌∙◌, Bool, ◌&&◌, ◌||◌, not, none, some, is_some, List, [], ◌∷◌, String, ◌==◌, mem,
  mem-add, filter, count_if, ltb, string_eq, option_eq, arith, Bool-cases, Option-cases, inl, inr,
}
use padrino.Game.{role_eq, GameState}
use padrino.Nar.Matrix.{NightActionKind, night_action_kind_eq}
use padrino.Nar.Intents.{NightActionIntent, alive_seat, valid_intents, tier_intents}
use padrino.Nar.Visits.{
  NightNotes, commuter_of, commuter_target, roleblock_step, roleblock_loop, apply_roleblocks,
}
use padrino.Nar.Night.{plan_night, resolve_plan, resolve_night_actions, no_notes}
use padrino.Nar.Kills.{votes_for}
use padrino.Nar.Deaths.{mem-sort_ids}

-- An action on `pid` bounces off: the player is a living commuter.
abbrev pub bounces : GameState → String → Bool
bounces state pid = is_some (commuter_of (alive_seat state (some pid)))

no_seat : (state : GameState) → alive_seat state none ≡ none
unfolding alive_seat
no_seat state = refl

roleblock_step-blocked :
    (state : GameState) (i : NightActionIntent) (blocked : List String) (notes : NightNotes)
    → (pid : String)
    → mem pid (roleblock_step state i (commuter_target state i) (blocked, notes)).0
      ≡ (i.target == some pid && not (bounces state pid)) || mem pid blocked
unfolding roleblock_step commuter_target
roleblock_step-blocked state i blocked notes pid = elim (Option-cases i.target) [
  | inl e ↦ ground (arith, e, no_seat state)
  | inr e ↦ ground (
    arith,
    e.1,
    mem-add pid e.0 blocked,
    Option-cases (commuter_of (alive_seat state (some e.0))),
  )
]

roleblock_loop-blocked :
    (state : GameState) (intents : List NightActionIntent) (blocked : List String)
    (notes : NightNotes)
    → (pid : String)
    → mem pid
        (roleblock_loop state (tier_intents intents NightActionKind.roleblock) (blocked, notes)).0
      ≡ (ltb 0 (votes_for NightActionKind.roleblock intents pid) && not (bounces state pid))
        || mem pid blocked
unfolding roleblock_loop tier_intents filter votes_for count_if
roleblock_loop-blocked state [] blocked notes pid = refl
roleblock_loop-blocked state (i ∷ is) blocked notes pid =
    let (blocked', notes') = roleblock_step state i (commuter_target state i) (blocked, notes) in
    let step = roleblock_step-blocked state i blocked notes pid in
    let later = roleblock_loop-blocked state is blocked' notes' pid in
    let skip = roleblock_loop-blocked state is blocked notes pid in
    elim (Bool-cases (i.kind == NightActionKind.roleblock)) [
      | inl e ↦ rw e (later ∙ ground (arith, step))
      | inr e ↦ rw e skip
    ]

-- A player is blocked for the night exactly if a valid roleblock names them and they are no living
-- commuter.
pub resolve_night_actions-blocked :
    (state : GameState) (intents : List NightActionIntent) (pid : String)
    → mem pid (resolve_night_actions state intents).blocked_actor_ids
      ≡ ltb 0 (votes_for NightActionKind.roleblock (valid_intents state intents) pid)
        && not (bounces state pid)
unfolding resolve_night_actions resolve_plan plan_night apply_roleblocks
resolve_night_actions-blocked state intents pid =
    let valid = valid_intents state intents in
    let loop = roleblock_loop state (tier_intents valid NightActionKind.roleblock) ([], no_notes) in
    mem-sort_ids state pid loop.0
    ∙ roleblock_loop-blocked state valid [] no_notes pid
    ∙ unfold mem in ground arith
