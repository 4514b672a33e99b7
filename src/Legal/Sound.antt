-- ===== src/Legal/Sound.antt =====
-- Legal night actions and the validation of the night resolver.
use padrino.Base.{
  ◌≡◌, refl, Bool, true, false, ◌&&◌, not, none, some, [], ◌∷◌, mem, String, ◌==◌, ltb, string_eq,
  option_eq, arith, Bool-cases, Option-cases, inl, inr, ◌≢◌,
}
use padrino.Game.{
  Faction, faction_eq, Role, role_eq, ActionType, action_type_eq, PhaseKind, Seat, GameState,
  living_seats, seat_by_public_id, janitor_clean_shots_remaining, framer_frame_shots_remaining,
}
use padrino.Nar.Matrix.{NightActionKind}
use padrino.Nar.Intents.{alive_seat, valid_kind, valid_target_for_kind, is_valid}
use padrino.Nar.Current.{kind_of_action, intent_of}
use padrino.Legal.{
  legal_actions_for, phase_actions, night_actions, future_night_actions, future_night_role_action,
  ids_where, living_others, factional_kill_roles,
}
use padrino.Legal.Targets.{IsRoster, ids_where-find}

-- The seat stands in a roster with one seat for each id, and a role with the factional kill stands
-- in the mafia.
abbrev pub IsSeated : GameState → Seat → Type 0
IsSeated state seat =
    IsRoster state.seats
    × (seat_by_public_id state seat.public_player_id ≡ some seat)
    × (mem seat.role factional_kill_roles ≡ true → seat.faction ≡ Faction.mafia)

-- The resolver accepts the action as an intent of the seat.
abbrev pub IsAccepted : GameState → Seat → ActionType → String → Type 0
IsAccepted state seat type target =
    (kind : NightActionKind) × (kind_of_action type ≡ some kind)
    × (is_valid state (intent_of seat.public_player_id kind (some target)) ≡ true)

module _ (state : GameState) (seat : Seat) (target : String) (seated : IsSeated state seat)
    (alive : seat.alive ≡ true) where
  accept :
      (kind : NightActionKind) (t : Seat)
      → seat_by_public_id state target ≡ some t
      → t.alive ≡ true
      → valid_kind state seat t kind (some target) none ≡ true
      → is_valid state (intent_of seat.public_player_id kind (some target)) ≡ true
  unfolding is_valid valid_target_for_kind alive_seat
  accept kind t found lives ok = ground (arith, seated.1, alive, found, lives, ok)

  future_kind :
      (t : Seat) (role : Role) (action : ActionType)
      → seat.role ≡ role
      → future_night_role_action role ≡ some action
      → target ≢ seat.public_player_id
      → seat.role == Role.janitor && not (ltb 0 (janitor_clean_shots_remaining seat)) ≡ false
      → seat.role == Role.framer && not (ltb 0 (framer_frame_shots_remaining seat)) ≡ false
      → (kind : NightActionKind) × (kind_of_action action ≡ some kind)
        × (valid_kind state seat t kind (some target) none ≡ true)
  unfolding future_night_role_action kind_of_action valid_kind
  future_kind t Role.mafia_roleblocker action e f other c j =
      (NightActionKind.roleblock, ground arith, ground arith)
  future_kind t Role.framer action e f other c j =
      (NightActionKind.frame, ground arith, ground arith)
  future_kind t Role.tracker action e f other c j =
      (NightActionKind.track, ground arith, ground arith)
  future_kind t Role.watcher action e f other c j =
      (NightActionKind.watch, ground arith, ground arith)
  future_kind t Role.janitor action e f other c j =
      (NightActionKind.clean, ground arith, ground arith)
  future_kind t Role.serial_killer action e f other c j =
      (NightActionKind.serial_kill, ground arith, ground arith)
  future_kind t Role.mafia_goon action e f other c j = absurd (ground arith)
  future_kind t Role.ninja action e f other c j = absurd (ground arith)
  future_kind t Role.godfather action e f other c j = absurd (ground arith)
  future_kind t Role.detective action e f other c j = absurd (ground arith)
  future_kind t Role.doctor action e f other c j = absurd (ground arith)
  future_kind t Role.mayor action e f other c j = absurd (ground arith)
  future_kind t Role.commuter action e f other c j = absurd (ground arith)
  future_kind t Role.mason action e f other c j = absurd (ground arith)
  future_kind t Role.jester action e f other c j = absurd (ground arith)
  future_kind t Role.villager action e f other c j = absurd (ground arith)

  future-IsAccepted :
      (type action : ActionType)
      → future_night_role_action seat.role ≡ some action
      → mem type (future_night_actions state seat (some action)).allowed_action_types ≡ true
      → mem target (future_night_actions state seat (some action)).legal_targets ≡ true
      → IsAccepted state seat type target
  unfolding future_night_actions living_others mem
  future-IsAccepted type action f a m =
      elim (Bool-cases
        (seat.role == Role.janitor && not (ltb 0 (janitor_clean_shots_remaining seat)))) [
          | inl e ↦ absurd (ground arith)
          | inr j ↦
              elim (Bool-cases
                (seat.role == Role.framer && not (ltb 0 (framer_frame_shots_remaining seat)))) [
                  | inl e ↦ absurd (ground arith)
                  | inr c ↦
                      let (t, found, same, lives, other) =
                        ids_where-find state
                          (λ s. not (s.public_player_id == seat.public_player_id)) target (seated.0)
                          (ground arith) in
                      let (kind, named, ok) =
                        future_kind t seat.role action refl f
                          (λ self. ground (arith, other, same, self)) j c in
                      (kind, ground (arith, named), accept kind t found lives ok)
                ]
        ]

  -- The branch of a role whose targets are the living seats that pass a test.
  branch-IsAccepted :
      (test : Seat → Bool) (kind : NightActionKind) (type action : ActionType)
      → mem type (action ∷ []) ≡ true
      → mem target (ids_where state test) ≡ true
      → kind_of_action action ≡ some kind
      → ((t : Seat)
          → t.public_player_id ≡ target
          → test t ≡ true
          → valid_kind state seat t kind (some target) none ≡ true)
      → IsAccepted state seat type target
  unfolding mem
  branch-IsAccepted test kind type action a m k ok =
      let (t, found, same, lives, passes) = ids_where-find state test target (seated.0) m in
      (kind, ground (arith, a, k), accept kind t found lives (ok t same passes))

  night-IsAccepted :
      (type : ActionType)
      → mem type (night_actions state seat).allowed_action_types ≡ true
      → mem target (night_actions state seat).legal_targets ≡ true
      → IsAccepted state seat type target
  unfolding night_actions kind_of_action valid_kind
  night-IsAccepted type a m = elim (Bool-cases (mem seat.role factional_kill_roles)) [
    | inl k ↦
        branch-IsAccepted (λ s. not (s.faction == Faction.mafia)) NightActionKind.factional_kill
          type ActionType.mafia_kill (rw k at a) (rw k at m) refl
          (λ t same test. ground (arith, seated.2 k, test))
    | inr k ↦ elim (Bool-cases (seat.role == Role.doctor)) [
      | inl d ↦
          branch-IsAccepted (λ s. not (some s.public_player_id == seat.last_protected_target))
            NightActionKind.protect type ActionType.protect (rw (k, d) at a) (rw (k, d) at m) refl
            (λ t same test. ground (arith, d, same, test))
      | inr d ↦ elim (Bool-cases (seat.role == Role.detective)) [
        | inl i ↦
            branch-IsAccepted (λ s. not (s.public_player_id == seat.public_player_id))
              NightActionKind.investigate type ActionType.investigate (rw (k, d, i) at a)
              (rw (k, d, i) at m) refl (λ t same test. ground (arith, i, same, test))
        | inr i ↦ elim (Option-cases (future_night_role_action seat.role)) [
          | inl f ↦ absurd (unfold future_night_actions mem in ground (arith, rw (k, d, i, f) at m))
          | inr f ↦
              let (action, g) = f in
              future-IsAccepted type action g (rw (k, d, i, g) at a) (rw (k, d, i, g) at m)
        ]
      ]
    ]
  ]

-- In the phase NIGHT_ACTIONS, in a roster with one seat for each id, an action type and a target that
-- are legal for a seat of the roster are accepted: the resolver reads them as an intent, and the
-- intent passes its validation. A seat whose role has the factional kill is taken to be of the faction
-- MAFIA.
pub legal_actions_for-is_valid :
    (state : GameState) (seat : Seat) (type : ActionType) (target : String)
    → IsRoster state.seats
    → seat_by_public_id state seat.public_player_id ≡ some seat
    → (mem seat.role factional_kill_roles ≡ true → seat.faction ≡ Faction.mafia)
    → state.current_phase.kind ≡ PhaseKind.night_actions
    → mem type (legal_actions_for state seat).allowed_action_types ≡ true
    → mem target (legal_actions_for state seat).legal_targets ≡ true
    → IsAccepted state seat type target
unfolding legal_actions_for phase_actions living_seats janitor_clean_shots_remaining
    framer_frame_shots_remaining living_others
legal_actions_for-is_valid state seat type target roster found kills night a m =
    elim (Bool-cases seat.alive) [
      | inl e ↦
          night-IsAccepted state seat target (roster, found, kills) e type (rw (e, night) at a)
            (rw (e, night) at m)
      | inr e ↦ absurd (unfold mem in ground (arith, rw e at m))
    ]
