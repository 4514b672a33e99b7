-- ===== src/Reducer/Firewall.antt =====
-- Which events have a mechanical effect on the state (the chat firewall of reducer.py), when the
-- fold of a log raises, and that a log can be folded in parts (replay.py).
use padrino.Base.{
  ◌≡◌, refl, Bool, true, false, ◌&&◌, not, Option, none, some, List, [], ◌∷◌, ◌++◌, filter, arith,
  ok, ◌>>=◌, is_ok, >>=-cong, >>=-assoc, is_ok->>=, sym, ap, ◌∙◌, Bool-cases, inl, inr,
}
use padrino.Game.{
  GameState, Event, game_created, roles_assigned, phase_started, player_eliminated,
  detective_result_delivered, protect_submitted, night_resolved, game_terminated, role_claimed,
}
use padrino.Reducer.{apply_event, start_phase, phase_kind_of, is_recorded_only, replay_from}

-- The events that a branch of `apply_event` reads; the others are chat, submissions and records.
abbrev pub is_mechanical : Event → Bool
is_mechanical (game_created h actor payload) = true
is_mechanical (roles_assigned h actor payload) = true
is_mechanical (phase_started h actor payload) = true
is_mechanical (player_eliminated h actor payload) = true
is_mechanical (detective_result_delivered h actor payload) = true
is_mechanical (protect_submitted h actor payload) = true
is_mechanical (night_resolved h actor payload) = true
is_mechanical (game_terminated h actor payload) = true
is_mechanical (role_claimed h actor payload) = true
is_mechanical _ = false

apply_event_of_record :
    (s : GameState) (e : Event) → is_mechanical e ≡ false → apply_event s e ≡ ok s
unfolding apply_event is_recorded_only
apply_event_of_record s (game_created h actor payload) n = cc
apply_event_of_record s _ n = ground arith

-- Folding a log, or only its mechanical events, gives the same result, whatever the chat,
-- the submitted votes and the other recorded events say.
pub replay_from-is_mechanical :
    (s : GameState) (es : List Event) → replay_from s (filter is_mechanical es) ≡ replay_from s es
unfolding replay_from filter
replay_from-is_mechanical s [] = refl
replay_from-is_mechanical s (e ∷ es) = elim (Bool-cases (is_mechanical e)) [
  | inl m ↦ rw m (>>=-cong (apply_event s e) _ _ (λ t. replay_from-is_mechanical t es))
  | inr n ↦ rw n (rw (apply_event_of_record s e n) (replay_from-is_mechanical s es))
]

-- Folding a log is folding its first part and then, from the state reached, the rest.
pub replay_from-append :
    (s : GameState) (es fs : List Event)
    → replay_from s (es ++ fs) ≡ (replay_from s es >>= λ t. replay_from t fs)
unfolding replay_from
replay_from-append s [] fs = refl
replay_from-append s (e ∷ es) fs =
    >>=-cong (apply_event s e) _ _ (λ t. replay_from-append t es fs)
    ∙ sym (>>=-assoc (apply_event s e) (λ t. replay_from t es) (λ t. replay_from t fs))

abbrev is_none : {A : Type 0} → Option A → Bool
is_none none = true
is_none (some a) = false

-- The events that no state accepts: `RoleClaimed`, and a phase of an unknown kind.
abbrev is_accepted : Event → Bool
is_accepted (role_claimed h actor payload) = false
is_accepted (phase_started h actor payload) = not (is_none (phase_kind_of payload.phase_kind))
is_accepted _ = true

abbrev pub all_accepted : List Event → Bool
all_accepted [] = true
all_accepted (e ∷ es) = is_accepted e && all_accepted es

apply_event-is_ok : (s : GameState) (e : Event) → is_ok (apply_event s e) ≡ is_accepted e
unfolding apply_event is_recorded_only start_phase
apply_event-is_ok s (phase_started h actor payload) = ground arith
apply_event-is_ok s _ = refl

-- The fold of a log returns a state exactly when every event of the log is accepted; which events
-- are accepted does not depend on the state.
pub replay_from-is_ok :
    (s : GameState) (es : List Event) → is_ok (replay_from s es) ≡ all_accepted es
unfolding replay_from
replay_from-is_ok s [] = refl
replay_from-is_ok s (e ∷ es) =
    is_ok->>= (apply_event s e) (λ t. replay_from t es) (all_accepted es)
      (λ t. replay_from-is_ok t es)
    ∙ ap (λ b. b && all_accepted es) (apply_event-is_ok s e)
