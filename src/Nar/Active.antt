-- ===== src/Nar/Active.antt =====
-- What the first two tiers of `resolve_night_actions` leave for the later ones.
use padrino.Base.{
  ◌≡◌, refl, Bool, true, false, ◌&&◌, ◌||◌, not, Option, none, some, List, [], ◌∷◌, ◌++◌, String,
  ◌==◌, mem, All, is_some, arith, if◌then◌else◌, string_eq, Bool-cases, inl, inr, filter, map, sym,
  ap, Dict, All-filter-true, ◌∙◌,
}
use mathlib.Core.List.{append-nil, append_assoc}
use padrino.Game.{GameState}
use padrino.Nar.Matrix.{
  NightActionKind, night_action_kind_eq, MatrixEffect, matrix_effect_eq, resolution_matrix,
  NightActionKind-discrete, MatrixEffect-discrete,
}
use padrino.Nar.Intents.{NightActionIntent, valid_intents}
use padrino.Nar.Visits.{NightNotes, commuter_target, apply_roleblocks}
use padrino.Nar.Redirects.{
  retarget_if_redirected, still_valid, settle, activate, active_loop,
  active_intents_after_blocks_and_redirects, apply_redirects,
}
use padrino.Nar.Night.{plan_night, no_notes}

-- The intents that go on to the tiers of kills, protects and reads.
unfoldable pub goes_on : GameState → (blocked : List String) → NightActionIntent → Bool
goes_on state blocked intent =
    not (intent.kind == NightActionKind.roleblock || intent.kind == NightActionKind.redirect)
    && (not (mem intent.actor blocked)
        && (still_valid state intent && not (is_some (commuter_target state intent))))

nullified :
    (kind : NightActionKind)
    → kind == NightActionKind.roleblock || kind == NightActionKind.redirect ≡ false
    → (resolution_matrix kind).blocked == MatrixEffect.nullifies_action ≡ true
unfolding resolution_matrix NightActionKind-discrete MatrixEffect-discrete
nullified NightActionKind.roleblock h = cc
nullified NightActionKind.redirect h = refl
nullified NightActionKind.factional_kill h = refl
nullified NightActionKind.protect h = refl
nullified NightActionKind.investigate h = refl
nullified NightActionKind.frame h = refl
nullified NightActionKind.track h = refl
nullified NightActionKind.watch h = refl
nullified NightActionKind.clean h = refl
nullified NightActionKind.serial_kill h = refl

retarget_keeps :
    (intent : NightActionIntent) (redirects : Dict String String)
    → ((retarget_if_redirected intent redirects).actor ≡ intent.actor)
      × ((retarget_if_redirected intent redirects).kind ≡ intent.kind)
unfolding retarget_if_redirected
retarget_keeps intent redirects = ground arith

append_if :
    (xs : List NightActionIntent) (t : Bool) (x : NightActionIntent) (ys : List NightActionIntent)
    → (xs ++ (if t then x ∷ [] else [])) ++ ys ≡ xs ++ (if t then x ∷ ys else ys)
append_if xs t x ys = append_assoc xs _ ys ∙ ap (λ zs. xs ++ zs) (ground arith)

module _ (state : GameState) (blocked : List String) (redirects : Dict String String) where
  settle-goes_on :
      (r : NightActionIntent) (commuter : Option String)
      → (active : List NightActionIntent) (notes : NightNotes)
      → (settle state r commuter (active, notes)).0
        ≡ active ++ (if not (is_some commuter) then r ∷ [] else [])
  unfolding settle
  settle-goes_on r (some c) active notes = sym (append-nil active)
  settle-goes_on r none active notes = refl

  goes_on-retarget :
      (intent : NightActionIntent)
      → goes_on state blocked (retarget_if_redirected intent redirects)
        ≡ not (intent.kind == NightActionKind.roleblock || intent.kind == NightActionKind.redirect)
          && (not (mem intent.actor blocked)
              && (still_valid state (retarget_if_redirected intent redirects)
                  && not
                      (is_some (commuter_target state (retarget_if_redirected intent redirects)))))
  unfolding goes_on
  goes_on-retarget intent = let k = retarget_keeps intent redirects in cc

  activate-goes_on :
      (intent : NightActionIntent) (active : List NightActionIntent) (notes : NightNotes)
      → (activate state blocked redirects intent (active, notes)).0
        ≡ active
          ++ (if goes_on state blocked (retarget_if_redirected intent redirects)
              then retarget_if_redirected intent redirects ∷ []
              else [])
  unfolding activate
  activate-goes_on intent active notes =
      let r = retarget_if_redirected intent redirects in
      rw (goes_on-retarget intent)
        (elim (Bool-cases
          (intent.kind == NightActionKind.roleblock || intent.kind == NightActionKind.redirect)) [
            | inl e ↦ rw e (sym (append-nil active))
            | inr e ↦ rw e (elim (Bool-cases (mem intent.actor blocked)) [
              | inl n ↦ rw n (rw (nullified intent.kind e) (sym (append-nil active)))
              | inr n ↦ rw n (elim (Bool-cases (still_valid state r)) [
                | inl v ↦ rw v (settle-goes_on r (commuter_target state r) active notes)
                | inr v ↦ rw v (sym (append-nil active))
              ])
            ])
          ])

  active_loop-goes_on :
      (intents active : List NightActionIntent) (notes : NightNotes)
      → (active_loop state blocked redirects intents (active, notes)).0
        ≡ active
          ++ filter
              (goes_on state blocked)
              (map (λ intent. retarget_if_redirected intent redirects) intents)
  unfolding active_loop filter
  active_loop-goes_on [] active notes = sym (append-nil active)
  active_loop-goes_on (intent ∷ intents) active notes =
      let step = activate state blocked redirects intent (active, notes) in
      active_loop-goes_on intents step.0 step.1
      ∙ rw (activate-goes_on intent active notes) (
          append_if active (goes_on state blocked (retarget_if_redirected intent redirects))
            (retarget_if_redirected intent redirects) _)

-- The intents that reach the tiers of kills, protects and reads are, in order, the given intents
-- after redirection that are neither roleblocks nor redirects, whose actor is not blocked, that
-- are still valid, and whose target is not a living commuter.
pub active_intents_after_blocks_and_redirects-eq-filter :
    (state : GameState) (intents : List NightActionIntent) (blocked : List String)
    → (redirects : Dict String String) (notes : NightNotes)
    → (active_intents_after_blocks_and_redirects state intents blocked redirects notes).0
      ≡ filter
          (goes_on state blocked)
          (map (λ intent. retarget_if_redirected intent redirects) intents)
unfolding active_intents_after_blocks_and_redirects
active_intents_after_blocks_and_redirects-eq-filter state intents blocked redirects notes =
    active_loop-goes_on state blocked redirects intents [] notes

-- Every intent of a planned night goes on.
pub plan_night-goes_on :
    (state : GameState) (intents : List NightActionIntent)
    → All
        (λ intent. goes_on state (plan_night state intents).blocked_actor_ids intent ≡ true)
        (plan_night state intents).active_intents
unfolding plan_night
plan_night-goes_on state intents =
    let valid = valid_intents state intents in
    let (blocked, notes) = apply_roleblocks state valid no_notes in
    let (redirects, notes') = apply_redirects state valid blocked notes in
    rw (active_intents_after_blocks_and_redirects-eq-filter state valid blocked redirects notes')
      (All-filter-true (goes_on state blocked) _)
