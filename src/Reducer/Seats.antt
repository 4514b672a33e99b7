-- ===== src/Reducer/Seats.antt =====
-- What an event of reducer.py may do to the seats.
use padrino.Base.{
  ℕ, ◌≤◌, ◌≡◌, refl, ap, sym, ◌∙◌, map-map, map-id, Bool, true, false, Option, none, some, List, [],
  ◌∷◌, map, String, ◌==◌, arith, is_empty, if◌then◌else◌, string_eq, Result, ok, ok-injective,
}
use padrino.Game.{
  Faction, faction_eq, Role, SeatKind, Seat, GameState, Event, roles_assigned, phase_started,
  player_eliminated, detective_result_delivered, protect_submitted, night_resolved,
  janitor_clean_shots_remaining, framer_frame_shots_remaining, PlayerEliminatedPayload, Header,
  QueuedInspection, NightResolvedPayload, PhaseStartedPayload, PhaseKind,
}
use padrino.Reducer.{
  ReducerError, apply_event, start_phase, phase_kind_of, is_recorded_only, update_seat,
  update_seats, spend_clean_shot, spend_frame_shot, spend_janitor_clean_shots,
  spend_framer_frame_shots, add_win_condition_trigger, eliminate, resolve_night_shots, die,
}

-- What identifies a seat in a game.
pub record Identity : Type 0 where
  pub public_player_id : String
  pub seat_index : ℕ
  pub role : Role
  pub faction : Faction
  pub seat_kind : Option SeatKind

abbrev pub identity : Seat → Identity
identity s = record {
  public_player_id = s.public_player_id;
  seat_index = s.seat_index;
  role = s.role;
  faction = s.faction;
  seat_kind = s.seat_kind;
}

-- An update of a seat that an event may make: it keeps the identity, revives nobody, and gives no
-- shots back.
pub record IsSeatUpdate (g : Seat → Seat) : Type 0 where
  pub same : (x : Seat) → identity (g x) ≡ identity x
  pub dead : (x : Seat) → x.alive ≡ false → (g x).alive ≡ false
  pub clean : (x : Seat) → janitor_clean_shots_remaining (g x) ≤ janitor_clean_shots_remaining x
  pub frame : (x : Seat) → framer_frame_shots_remaining (g x) ≤ framer_frame_shots_remaining x

id-IsSeatUpdate : IsSeatUpdate (λ s. s)
id-IsSeatUpdate = record {
  same = λ x. refl;
  dead = λ x h. h;
  clean = λ x. omega arith;
  frame = λ x. omega arith;
}

pub compose-IsSeatUpdate :
    (g f : Seat → Seat) → IsSeatUpdate g → IsSeatUpdate f → IsSeatUpdate (λ x. f (g x))
compose-IsSeatUpdate g f u v = record {
  same = λ x. v.same (g x) ∙ u.same x;
  dead = λ x h. v.dead (g x) (u.dead x h);
  clean = λ x. omega (arith, v.clean (g x), u.clean x);
  frame = λ x. omega (arith, v.frame (g x), u.frame x);
}

-- An update of one player's seat.
abbrev pub at_player : String → (Seat → Seat) → Seat → Seat
at_player pid f s = if s.public_player_id == pid then f s else s

at_player-IsSeatUpdate :
    (pid : String) (f : Seat → Seat) → IsSeatUpdate f → IsSeatUpdate (at_player pid f)
at_player-IsSeatUpdate pid f u = record {
  same = λ x. ground (arith, u.same x);
  dead = λ x h. ground (arith, u.dead x h);
  clean = λ x. ground (arith, u.clean x);
  frame = λ x. ground (arith, u.frame x);
}

die-IsSeatUpdate : (phase : String) → IsSeatUpdate (die phase)
unfolding janitor_clean_shots_remaining framer_frame_shots_remaining
die-IsSeatUpdate phase = record {
  same = λ x. refl;
  dead = λ x h. refl;
  clean = λ x. omega arith;
  frame = λ x. omega arith;
}

inspect-IsSeatUpdate :
    (q : Option QueuedInspection) → IsSeatUpdate (λ s. record s { queued_inspection_result = q })
unfolding janitor_clean_shots_remaining framer_frame_shots_remaining
inspect-IsSeatUpdate q = record {
  same = λ x. refl;
  dead = λ x h. h;
  clean = λ x. omega arith;
  frame = λ x. omega arith;
}

protect-IsSeatUpdate :
    (q : Option String) → IsSeatUpdate (λ s. record s { last_protected_target = q })
unfolding janitor_clean_shots_remaining framer_frame_shots_remaining
protect-IsSeatUpdate q = record {
  same = λ x. refl;
  dead = λ x h. h;
  clean = λ x. omega arith;
  frame = λ x. omega arith;
}

spend_clean_shot-IsSeatUpdate : (ids : List String) → IsSeatUpdate (spend_clean_shot ids)
unfolding janitor_clean_shots_remaining framer_frame_shots_remaining spend_clean_shot
spend_clean_shot-IsSeatUpdate ids = record {
  same = λ x. ground arith;
  dead = λ x h. ground arith;
  clean = λ x. ground arith;
  frame = λ x. ground arith;
}

spend_frame_shot-IsSeatUpdate : (ids : List String) → IsSeatUpdate (spend_frame_shot ids)
unfolding janitor_clean_shots_remaining framer_frame_shots_remaining spend_frame_shot
spend_frame_shot-IsSeatUpdate ids = record {
  same = λ x. ground arith;
  dead = λ x h. ground arith;
  clean = λ x. ground arith;
  frame = λ x. ground arith;
}

-- The seats of `t` are those of `s`, each updated by one lawful update.
abbrev pub Updates : GameState → GameState → Type 0
Updates s t = (g : Seat → Seat) × IsSeatUpdate g × (t.seats ≡ map g s.seats)

pub Updates-same : (s t : GameState) → t.seats ≡ s.seats → Updates s t
Updates-same s t e = ((λ x. x), id-IsSeatUpdate, e ∙ sym (map-id s.seats))

clean-Updates :
    (s : GameState) (ids : List String)
    → (g : Seat → Seat) × IsSeatUpdate g × ((spend_janitor_clean_shots s ids).seats ≡ map g s.seats)
unfolding spend_janitor_clean_shots is_empty
clean-Updates s [] = ((λ x. x), id-IsSeatUpdate, sym (map-id s.seats))
clean-Updates s (i ∷ ids) =
    (spend_clean_shot (i ∷ ids), spend_clean_shot-IsSeatUpdate (i ∷ ids), refl)

frame-Updates :
    (s : GameState) (ids : List String)
    → (g : Seat → Seat) × IsSeatUpdate g × ((spend_framer_frame_shots s ids).seats ≡ map g s.seats)
unfolding spend_framer_frame_shots is_empty
frame-Updates s [] = ((λ x. x), id-IsSeatUpdate, sym (map-id s.seats))
frame-Updates s (i ∷ ids) =
    (spend_frame_shot (i ∷ ids), spend_frame_shot-IsSeatUpdate (i ∷ ids), refl)

resolve_night_shots-Updates :
    (s : GameState) (p : NightResolvedPayload) → Updates s (resolve_night_shots s p)
unfolding resolve_night_shots
resolve_night_shots-Updates s p =
    let (g, u, e) = clean-Updates s p.clean_spent_actor_ids in
    let t = spend_janitor_clean_shots s p.clean_spent_actor_ids in
    let (f, v, e') = frame-Updates t p.frame_spent_actor_ids in
    ((λ x. f (g x)), compose-IsSeatUpdate g f u v, e' ∙ ap (map f) e ∙ map-map f g s.seats)

pub eliminate_seats :
    (s : GameState) (h : Header) (p : PlayerEliminatedPayload)
    → (eliminate s h p).seats ≡ map (at_player p.public_player_id (die h.phase)) s.seats
unfolding eliminate add_win_condition_trigger update_seat update_seats
eliminate_seats s h p = ground arith

abbrev pub is_roles_assigned : Event → Bool
is_roles_assigned (roles_assigned h actor payload) = true
is_roles_assigned _ = false

start_phase_seats :
    (s : GameState) (p : PhaseStartedPayload) (k : Option PhaseKind) (t : GameState)
    → start_phase s p k ≡ ok t
    → t.seats ≡ s.seats
unfolding start_phase
start_phase_seats s p none t e = cc
start_phase_seats s p (some k) t e = ground arith

seats_of :
    {s t : GameState} → ◌≡◌ {A = Result ReducerError GameState} (ok s) (ok t) → t.seats ≡ s.seats
seats_of e = ap (λ u. u.seats) (sym (ok-injective e))

-- Every event other than `RolesAssigned` updates the seats in place and lawfully: seats are neither
-- added, removed nor reordered, keep their identity, are not revived and get no shots back.
pub apply_event-Updates :
    (s t : GameState) (e : Event)
    → is_roles_assigned e ≡ false
    → apply_event s e ≡ ok t
    → Updates s t
unfolding apply_event is_recorded_only update_seat update_seats
apply_event-Updates s t (roles_assigned h actor payload) n e = cc
apply_event-Updates s t (phase_started h actor p) n e =
    Updates-same s t (start_phase_seats s p (phase_kind_of p.phase_kind) t e)
apply_event-Updates s t (player_eliminated h actor p) n e =
    let lethal = at_player-IsSeatUpdate _ _ (die-IsSeatUpdate h.phase) in
    (at_player p.public_player_id (die h.phase), lethal, seats_of e ∙ eliminate_seats s h p)
apply_event-Updates s t (detective_result_delivered h actor p) n e =
    let queued = some (record { target = p.target; finding = p.finding }) in
    (at_player actor _, at_player-IsSeatUpdate _ _ (inspect-IsSeatUpdate queued), seats_of e)
apply_event-Updates s t (protect_submitted h actor p) n e =
    (at_player actor _, at_player-IsSeatUpdate _ _ (protect-IsSeatUpdate p.target), seats_of e)
apply_event-Updates s t (night_resolved h actor p) n e =
    let (g, u, r) = resolve_night_shots-Updates s p in (g, u, seats_of e ∙ r)
apply_event-Updates s t _ n e = Updates-same s t (ground arith)
