-- ===== src/Win/Verdicts.antt =====
-- What `check_win` decides: the first condition that matches, and the verdicts of the policies.
use padrino.Base.{
  ℕ, zero, suc, ◌<◌, ◌≡◌, refl, sym, ap, ◌∙◌, ◌⊎◌, inl, inr, ◌↔◌, true, false, Option, none, some,
  List, [], ◌∷◌, ◌++◌, String, ◌==◌, ltb, leb, ◌=ℕ=◌, mem, mem-append, is_empty, All, arith,
  if◌then◌else◌, string_eq, String-discrete, Bool-cases, ok, ok-injective,
}
use padrino.Game.{
  Faction, faction_eq, faction_value, Role, role_eq, GameState, alive_count_by_faction, Event,
  Header, PlayerEliminatedPayload, player_eliminated,
}
use padrino.Reducer.{
  apply_event, replay_from, eliminate, jester_day_vote_triggered, add_win_condition_trigger,
  day_vote_causes, jester_day_voted_out_trigger,
}
use padrino.Reducer.Roster.{keeps_roles, replay_from-alive_count}
use padrino.Win.{
  WinCondition, WinResult, WinRuleset, canonical_two_faction_win_conditions, alive_count,
  total_alive, has_eliminated_targets, faction_parity_reached, is_solo_last_alive,
  condition_matches, conditions_for, conditions_or, first_match, check_win, result_of,
  reason_all_mafia_eliminated, reason_parity_reached, reason_max_days_reached,
}
use padrino.Win.Counts.{total_alive_count, OnlyAlive, OnlyAlive-of_count, count_of_OnlyAlive}
use padrino.Win.Rulesets.{sk12_v1, sk12_v1_conditions, jester8_v1, jester8_v1_conditions}

-- `c` is the first condition of the list that matches, and `w` its result.
abbrev pub IsFirstMatch : List WinCondition → GameState → WinRuleset → WinResult → Type 0
IsFirstMatch conditions s r w =
    (before : List WinCondition) × (c : WinCondition) × (after : List WinCondition) × (conditions
      ≡ before ++ c ∷ after)
    × All (λ b. condition_matches b s r ≡ false) before
    × (condition_matches c s r ≡ true)
    × (w ≡ result_of c)

first_match-some :
    (conditions : List WinCondition) (s : GameState) (r : WinRuleset) (w : WinResult)
    → first_match conditions s r ≡ some w
    → IsFirstMatch conditions s r w
unfolding first_match
first_match-some [] s r w h = cc
first_match-some (c ∷ cs) s r w h = elim (Bool-cases (condition_matches c s r)) [
  | inl m ↦ ([], c, cs, refl, tt, m, ground arith)
  | inr m ↦
      let (before, d, after, e, fails, hit, res) = first_match-some cs s r w (ground arith) in
      (c ∷ before, d, after, ap (◌∷◌ c) e, (m, fails), hit, res)
]

first_match-none :
    (conditions : List WinCondition) (s : GameState) (r : WinRuleset)
    → first_match conditions s r ≡ none
    → All (λ c. condition_matches c s r ≡ false) conditions
unfolding first_match
first_match-none [] s r h = tt
first_match-none (c ∷ cs) s r h = elim (Bool-cases (condition_matches c s r)) [
  | inl m ↦ cc
  | inr m ↦ (m, first_match-none cs s r (ground arith))
]

-- `check_win` answers with the first declared condition that matches, all earlier ones failing.
pub check_win-some :
    (s : GameState) (r : WinRuleset) (w : WinResult)
    → check_win s r ≡ some w
    → IsFirstMatch (conditions_for r) s r w
unfolding check_win
check_win-some s r w h = first_match-some (conditions_for r) s r w h

-- The game goes on only if no declared condition matches.
pub check_win-none :
    (s : GameState) (r : WinRuleset)
    → check_win s r ≡ none
    → All (λ c. condition_matches c s r ≡ false) (conditions_for r)
unfolding check_win
check_win-none s r h = first_match-none (conditions_for r) s r h

abbrev result : (winner reason : String) → WinResult
result winner reason = record { winner = winner; reason = reason }

-- The documented policy of the canonical rulesets, on the numbers of living mafia and town.
abbrev pub canonical_verdict : (mafia town day max_days : ℕ) → Option WinResult
canonical_verdict zero town day max_days = some (result "TOWN" reason_all_mafia_eliminated)
canonical_verdict (suc m) town day max_days =
    if leb town (suc m)
    then some (result "MAFIA" reason_parity_reached)
    else if ltb max_days day
    then some (result "DRAW" reason_max_days_reached)
    else none

conditions_for_canonical :
    (r : WinRuleset)
    → (r.win_conditions ≡ none) ⊎ (r.win_conditions ≡ some canonical_two_faction_win_conditions)
    → conditions_for r ≡ canonical_two_faction_win_conditions
unfolding conditions_for
conditions_for_canonical r (inl e) = ap conditions_or e
conditions_for_canonical r (inr e) = ap conditions_or e

first_match-canonical :
    (s : GameState) (r : WinRuleset)
    → first_match canonical_two_faction_win_conditions s r
      ≡ canonical_verdict
          (alive_count_by_faction s Faction.mafia)
          (alive_count_by_faction s Faction.town)
          s.day
          r.max_days
unfolding first_match canonical_two_faction_win_conditions condition_matches has_eliminated_targets
    faction_parity_reached alive_count is_empty faction_value
first_match-canonical s r = ground arith

-- With the canonical conditions, or with none declared, `check_win` is the documented policy:
-- TOWN when no mafia live, else MAFIA at parity, else DRAW past the day cap, else no verdict.
pub check_win-canonical :
    (s : GameState) (r : WinRuleset)
    → (r.win_conditions ≡ none) ⊎ (r.win_conditions ≡ some canonical_two_faction_win_conditions)
    → check_win s r
      ≡ canonical_verdict
          (alive_count_by_faction s Faction.mafia)
          (alive_count_by_faction s Faction.town)
          s.day
          r.max_days
unfolding check_win
check_win-canonical s r h = rw (conditions_for_canonical r h) (first_match-canonical s r)

names_differ :
    (◌==◌ {A = String} "MAFIA" "TOWN" ≡ false) × (◌==◌ {A = String} "DRAW" "TOWN" ≡ false)
unfolding String-discrete
names_differ = (refl, refl)

town_verdict :
    (m t d x : ℕ) {w : WinResult}
    → canonical_verdict m t d x ≡ some w
    → w.winner ≡ "TOWN"
    → (m ≡ 0) × (w ≡ result "TOWN" reason_all_mafia_eliminated)
town_verdict zero t d x h e = (refl, ground arith)
town_verdict (suc m) t d x {w} h e = absurd (ground (arith, names_differ))

-- A TOWN verdict of the canonical policy is final: after any further events without `RolesAssigned`
-- the check gives the same verdict.
pub check_win-town_final :
    (s t : GameState) (r : WinRuleset) (es : List Event) (w : WinResult)
    → (r.win_conditions ≡ none) ⊎ (r.win_conditions ≡ some canonical_two_faction_win_conditions)
    → check_win s r ≡ some w
    → w.winner ≡ "TOWN"
    → keeps_roles es ≡ true
    → replay_from s es ≡ ok t
    → check_win t r ≡ some w
check_win-town_final s t r es w c h town k e =
    let (none_left, named) =
      town_verdict (alive_count_by_faction s Faction.mafia) (alive_count_by_faction s Faction.town)
        s.day r.max_days (sym (check_win-canonical s r c) ∙ h) town in
    let still : alive_count_by_faction t Faction.mafia ≡ 0 =
      omega (arith, replay_from-alive_count s t es Faction.mafia k e, none_left) in
    check_win-canonical t r c ∙ rw (still, named)

-- A last-alive condition matches exactly if its faction has a living seat and every living seat
-- belongs to it.
pub is_solo_last_alive_iff :
    (c : WinCondition) (s : GameState) (f : Faction)
    → c.faction ≡ some f
    → (is_solo_last_alive c s ≡ true) ↔ ((0 < alive_count_by_faction s f) × OnlyAlive f s.seats)
unfolding is_solo_last_alive alive_count_by_faction
is_solo_last_alive_iff c s f e = (
  (λ h. (
    ground (arith, h, e),
    OnlyAlive-of_count f s.seats (ground (arith, h, e, total_alive_count s)),
  )),
  (λ h. ground (arith, h.0, e, total_alive_count s, count_of_OnlyAlive f s.seats h.1)),
)

-- While a serial killer lives, sk12_v1 gives the win to the serial killer exactly if nobody else
-- lives, a DRAW past day 5, and otherwise no verdict: neither TOWN nor MAFIA can win.
pub check_win-sk12 :
    (s : GameState)
    → 0 < alive_count_by_faction s Faction.serial_killer
    → check_win s sk12_v1 ≡ (
        if alive_count_by_faction s Faction.serial_killer =ℕ= total_alive s
        then some (result "SERIAL_KILLER" "SOLO_LAST_ALIVE")
        else if ltb 5 s.day
        then some (result "DRAW" reason_max_days_reached)
        else none)
unfolding check_win conditions_for first_match sk12_v1_conditions condition_matches
    has_eliminated_targets faction_parity_reached is_solo_last_alive alive_count is_empty
    faction_value
check_win-sk12 s h = ground arith

jester_triggers :
    (s : GameState) (h : Header) (p : PlayerEliminatedPayload)
    → jester_day_vote_triggered p ≡ true
    → mem jester_day_voted_out_trigger (eliminate s h p).win_condition_triggers ≡ true
unfolding eliminate add_win_condition_trigger mem
jester_triggers s h p j = ground (
  arith,
  mem-append jester_day_voted_out_trigger s.win_condition_triggers
      (jester_day_voted_out_trigger ∷ []),
)

lynched :
    (p : PlayerEliminatedPayload)
    → p.role ≡ some Role.jester
    → mem p.cause day_vote_causes ≡ true
    → jester_day_vote_triggered p ≡ true
unfolding jester_day_vote_triggered
lynched p role cause = ground arith

-- In jester8_v1, once the elimination of a Jester by the day vote is applied, the Jester has won.
pub check_win-jester :
    (s t : GameState) (h : Header) (actor : Option String) (p : PlayerEliminatedPayload)
    → p.role ≡ some Role.jester
    → mem p.cause day_vote_causes ≡ true
    → apply_event s (player_eliminated h actor p) ≡ ok t
    → check_win t jester8_v1 ≡ some (result "JESTER" "JESTER_DAY_VOTED_OUT")
unfolding check_win conditions_for first_match jester8_v1_conditions condition_matches apply_event
    faction_value
check_win-jester s t h actor p role cause e =
    let fired = jester_triggers s h p (lynched p role cause) in
    let seen =
      ap (λ u. mem jester_day_voted_out_trigger u.win_condition_triggers) (ok-injective e) in
    rw (sym seen ∙ fired)
