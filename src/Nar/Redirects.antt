-- ===== src/Nar/Redirects.antt =====
-- nar.py, the second tier: redirects, and the loop that keeps the intents that go on.
use padrino.Base.{
  Bool, true, false, ◌&&◌, ◌||◌, not, Option, none, some, List, [], ◌∷◌, ◌++◌, String, ◌==◌, mem,
  Dict, get, setdefault, if◌then◌else◌, string_eq,
}
use padrino.Game.{role_eq, GameState}
use padrino.Nar.Matrix.{
  NightActionKind, night_action_kind_eq, MatrixEffect, matrix_effect_eq, resolution_matrix,
}
use padrino.Nar.Intents.{
  NightActionIntent, alive_seat, valid_at, valid_target_for_kind, tier_intents,
}
use padrino.Nar.Visits.{NightNotes, blocked_feedback, say, record_visit, commuter_target, bounce}

-- The body of the loop of `_apply_redirects`, for an intent that is not blocked. Its two assertions
-- hold for every valid redirect; where they would fail, the pair is not entered.
abbrev add_redirect : Option String → Option String → Dict String String → Dict String String
add_redirect (some target) (some redirect_target) redirects =
    setdefault target redirect_target redirects
add_redirect _ _ redirects = redirects

unfoldable pub redirect_step :
    GameState
    → (blocked : List String) → NightActionIntent
    → Dict String String × NightNotes
    → Dict String String × NightNotes
redirect_step state blocked intent (redirects, notes) =
    if mem intent.actor blocked
    then (redirects, record_visit state intent none true (say (blocked_feedback intent) notes))
    else (
      add_redirect intent.target intent.redirect_target redirects,
      record_visit state intent none false notes,
    )

unfoldable pub redirect_loop :
    GameState
    → (blocked : List String) → List NightActionIntent
    → Dict String String × NightNotes
    → Dict String String × NightNotes
unfolding redirect_step
redirect_loop state blocked [] acc = acc
redirect_loop state blocked (intent ∷ intents) acc =
    redirect_loop state blocked intents (redirect_step state blocked intent acc)

unfoldable pub apply_redirects :
    GameState
    → List NightActionIntent
    → (blocked_actor_ids : List String) → NightNotes
    → Dict String String × NightNotes
unfolding redirect_loop
apply_redirects state intents blocked_actor_ids notes =
    redirect_loop state blocked_actor_ids (tier_intents intents NightActionKind.redirect)
      ([], notes)

abbrev retarget_to : Option String → NightActionIntent → NightActionIntent
retarget_to none intent = intent
retarget_to (some target) intent = record intent { target = some target }

unfoldable pub retarget_if_redirected : NightActionIntent → Dict String String → NightActionIntent
retarget_if_redirected intent redirects =
    if (resolution_matrix intent.kind).redirected == MatrixEffect.retargets_action
    then retarget_to (get intent.actor redirects) intent
    else intent

-- The three ways on for an intent of the loop of `_active_intents_after_blocks_and_redirects`
-- that is neither a roleblock nor a redirect.
unfoldable pub settle :
    GameState
    → NightActionIntent
    → (commuter : Option String) → List NightActionIntent × NightNotes
    → List NightActionIntent × NightNotes
settle state retargeted (some commuter) (active, notes) = (active, bounce commuter retargeted notes)
settle state retargeted none (active, notes) =
    (active ++ retargeted ∷ [], record_visit state retargeted none false notes)

-- The test of the loop on an intent's actor and target, after the redirect.
unfoldable pub still_valid : GameState → NightActionIntent → Bool
still_valid state retargeted = valid_at (alive_seat state (some retargeted.actor)) (λ actor.
    valid_target_for_kind state actor retargeted.kind retargeted.target retargeted.redirect_target)

unfoldable pub activate :
    GameState
    → (blocked : List String) → Dict String String
    → NightActionIntent
    → List NightActionIntent × NightNotes
    → List NightActionIntent × NightNotes
unfolding settle still_valid
activate state blocked redirects intent (active, notes) =
    let retargeted = retarget_if_redirected intent redirects in
    if intent.kind == NightActionKind.roleblock || intent.kind == NightActionKind.redirect
    then (active, notes)
    else if mem intent.actor blocked
        && (resolution_matrix intent.kind).blocked == MatrixEffect.nullifies_action
    then (active, record_visit state intent none true (say (blocked_feedback intent) notes))
    else if not (still_valid state retargeted)
    then (active, notes)
    else settle state retargeted (commuter_target state retargeted) (active, notes)

unfoldable pub active_loop :
    GameState
    → (blocked : List String) → Dict String String
    → List NightActionIntent
    → List NightActionIntent × NightNotes
    → List NightActionIntent × NightNotes
unfolding activate
active_loop state blocked redirects [] acc = acc
active_loop state blocked redirects (intent ∷ intents) acc =
    active_loop state blocked redirects intents (activate state blocked redirects intent acc)

unfoldable pub active_intents_after_blocks_and_redirects :
    GameState
    → List NightActionIntent
    → (blocked_actor_ids : List String) → Dict String String
    → NightNotes
    → List NightActionIntent × NightNotes
unfolding active_loop
active_intents_after_blocks_and_redirects state intents blocked_actor_ids redirects notes =
    active_loop state blocked_actor_ids redirects intents ([], notes)
