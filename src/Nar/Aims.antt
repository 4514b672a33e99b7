-- ===== src/Nar/Aims.antt =====
-- What the validation of an intent says of its actor and its target.
use padrino.Base.{
  ◌≡◌, refl, ◌≢◌, Bool, true, false, Option, none, some, List, String, mem, string_eq, option_eq,
  arith, Bool-cases, Option-cases, inl, inr,
}
use padrino.Game.{faction_eq, Role, role_eq, Seat, GameState, seat_by_public_id}
use padrino.Nar.Matrix.{night_action_kind_eq}
use padrino.Nar.Intents.{NightActionIntent, alive_seat, valid_at, valid_kind, valid_target_for_kind}
use padrino.Nar.Visits.{commuter_target}
use padrino.Nar.Redirects.{still_valid}
use padrino.Nar.Active.{goes_on}

alive_at :
    (state : GameState) (pid : String) (test : Seat → Bool)
    → valid_at (alive_seat state (some pid)) test ≡ true
    → (seat : Seat) × (seat_by_public_id state pid ≡ some seat)
      × (alive_seat state (some pid) ≡ some seat)
      × (seat.alive ≡ true)
      × (test seat ≡ true)
unfolding alive_seat
alive_at state pid test h = elim (Option-cases (seat_by_public_id state pid)) [
  | inl e ↦ absurd (ground (arith, e))
  | inr e ↦
      let (seat, f) = e in
      elim (Bool-cases seat.alive) [
        | inl v ↦ (seat, f, ground arith, v, ground arith)
        | inr v ↦ absurd (ground arith)
      ]
]

-- A living actor and a living target whose roles allow the intent.
pub record Aim (state : GameState) (intent : NightActionIntent) : Type 0 where
  pub actor : Seat
  pub target : Seat
  pub target_id : String
  pub actor_seat : seat_by_public_id state intent.actor ≡ some actor
  pub actor_alive : actor.alive ≡ true
  pub target_named : intent.target ≡ some target_id
  pub target_seat : seat_by_public_id state target_id ≡ some target
  pub target_alive : target.alive ≡ true
  pub allowed :
      valid_kind state actor target intent.kind (some target_id) intent.redirect_target ≡ true
  pub not_commuter : commuter_target state intent ≡ none → target.role ≢ Role.commuter

Aim-at :
    (state : GameState) (intent : NightActionIntent) (actor : Seat) (target : Option String)
    → intent.target ≡ target
    → seat_by_public_id state intent.actor ≡ some actor
    → actor.alive ≡ true
    → valid_target_for_kind state actor intent.kind target intent.redirect_target ≡ true
    → Aim state intent
unfolding valid_target_for_kind commuter_target
Aim-at state intent actor none e ea va h = absurd (unfold alive_seat in cc)
Aim-at state intent actor (some pid) e ea va h =
    let (target, et, at, vt, k) =
      alive_at state pid
        (λ s. valid_kind state actor s intent.kind (some pid) intent.redirect_target) h in
    record {
      actor = actor;
      target = target;
      target_id = pid;
      actor_seat = ea;
      actor_alive = va;
      target_named = e;
      target_seat = et;
      target_alive = vt;
      allowed = k;
      not_commuter = λ c r. ground (arith, at, c, r, e);
    }

pub still_valid-Aim :
    (state : GameState) (intent : NightActionIntent)
    → still_valid state intent ≡ true
    → Aim state intent
unfolding still_valid
still_valid-Aim state intent h =
    let (actor, ea, _, va, k) =
      alive_at state intent.actor
        (λ s. valid_target_for_kind state s intent.kind intent.target intent.redirect_target) h in
    Aim-at state intent actor intent.target refl ea va k

pub goes_on-parts :
    (state : GameState) (blocked : List String) (intent : NightActionIntent)
    → goes_on state blocked intent ≡ true
    → (still_valid state intent ≡ true)
      × (commuter_target state intent ≡ none)
      × (mem intent.actor blocked ≡ false)
unfolding goes_on
goes_on-parts state blocked intent g = ground arith
