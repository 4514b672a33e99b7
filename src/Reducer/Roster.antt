-- ===== src/Reducer/Roster.antt =====
-- The roster and the dead along a log of reducer.py.
use padrino.Base.{
  ◌≤◌, ◌≡◌, refl, ap, sym, ◌∙◌, map-map, Bool, true, ◌&&◌, not, Option, none, some, List, [], ◌∷◌,
  map, String, ◌==◌, count_if, find, find-some, arith, if◌then◌else◌, string_eq, ok, first_step,
  ok-injective, fun_ext,
}
use padrino.Game.{
  Faction, faction_eq, role_eq, Seat, GameState, Event, player_eliminated, Header,
  alive_count_by_faction, seat_by_public_id, PlayerEliminatedPayload,
}
use mathlib.Core.Option
use padrino.Reducer.{apply_event, replay_from, die}
use padrino.Reducer.Seats.{
  identity, IsSeatUpdate, Updates, Updates-same, compose-IsSeatUpdate, is_roles_assigned,
  apply_event-Updates, eliminate_seats, at_player,
}

abbrev pub keeps_roles : List Event → Bool
keeps_roles [] = true
keeps_roles (e ∷ es) = not (is_roles_assigned e) && keeps_roles es

Updates-trans : (s t u : GameState) → Updates s t → Updates t u → Updates s u
Updates-trans s t u (g, ug, eg) (f, uf, ef) =
    ((λ x. f (g x)), compose-IsSeatUpdate g f ug uf, ef ∙ ap (map f) eg ∙ map-map f g s.seats)

replay_from-Updates :
    (s t : GameState) (es : List Event)
    → keeps_roles es ≡ true
    → replay_from s es ≡ ok t
    → Updates s t
unfolding replay_from
replay_from-Updates s t [] k e = Updates-same s t (ap (λ u. u.seats) (sym (ok-injective e)))
replay_from-Updates s t (e ∷ es) k r =
    let (s', first, rest) = first_step (λ u. replay_from u es) (apply_event s e) t r in
    Updates-trans s s' t (apply_event-Updates s s' e (ground arith) first)
      (replay_from-Updates s' t es (ground arith) rest)

-- Folding a log without `RolesAssigned` keeps the roster: the same players sit in the same order
-- with the same index, role, faction and kind of occupant.
pub replay_from-identity :
    (s t : GameState) (es : List Event)
    → keeps_roles es ≡ true
    → replay_from s es ≡ ok t
    → map identity t.seats ≡ map identity s.seats
replay_from-identity s t es k r =
    let (g, u, e) = replay_from-Updates s t es k r in
    ap (map identity) e ∙ map-map identity g s.seats ∙ ap (λ f. map f s.seats) (fun_ext u.same)

count_if-map-le :
    (p : Seat → Bool) (g : Seat → Seat) (xs : List Seat)
    → ((x : Seat) → p (g x) ≡ true → p x ≡ true)
    → count_if p (map g xs) ≤ count_if p xs
unfolding count_if
count_if-map-le p g [] h = omega arith
count_if-map-le p g (x ∷ xs) h = ground (arith, h x, count_if-map-le p g xs h)

-- Folding a log without `RolesAssigned` never raises the number of living players of a faction.
pub replay_from-alive_count :
    (s t : GameState) (es : List Event) (faction : Faction)
    → keeps_roles es ≡ true
    → replay_from s es ≡ ok t
    → alive_count_by_faction t faction ≤ alive_count_by_faction s faction
unfolding alive_count_by_faction
replay_from-alive_count s t es faction k r =
    let (g, u, e) = replay_from-Updates s t es k r in
    rw e (count_if-map-le (λ x. x.alive && x.faction == faction) g s.seats (λ x. lives g u x))
  where
    lives :
        (g : Seat → Seat)
        → IsSeatUpdate g
        → (x : Seat) → ((g x).alive && (g x).faction == faction) ≡ true
        → (x.alive && x.faction == faction) ≡ true
    lives g u x h = ground (arith, u.dead x, ap (λ i. i.faction) (u.same x))

find-map :
    (pid : String) (g : Seat → Seat) (xs : List Seat)
    → ((x : Seat) → (g x).public_player_id ≡ x.public_player_id)
    → find (λ x. x.public_player_id == pid) (map g xs)
      ≡ Option.map g (find (λ x. x.public_player_id == pid) xs)
unfolding find
find-map pid g [] h = refl
find-map pid g (x ∷ xs) h = ground (arith, h x, find-map pid g xs h)

pick :
    (pid victim phase : String) (o : Option Seat)
    → ((x : Seat) → o ≡ some x → x.public_player_id == pid ≡ true)
    → Option.map (at_player victim (die phase)) o
      ≡ (if victim == pid then Option.map (die phase) o else o)
pick pid victim phase none h = ground arith
pick pid victim phase (some x) h = ground (arith, h x refl)

-- After `PlayerEliminated` the victim's seat is dead, with the event's phase as its death phase, and
-- every other player's seat is as before.
pub apply_event-player_eliminated :
    (s t : GameState) (h : Header) (actor : Option String) (p : PlayerEliminatedPayload)
    (pid : String)
    → apply_event s (player_eliminated h actor p) ≡ ok t
    → seat_by_public_id t pid ≡ (
        if p.public_player_id == pid
        then Option.map (die h.phase) (seat_by_public_id s pid)
        else seat_by_public_id s pid)
unfolding apply_event seat_by_public_id
apply_event-player_eliminated s t h actor p pid e =
    let test = λ (x : Seat). x.public_player_id == pid in
    let g = at_player p.public_player_id (die h.phase) in
    ap (find test) (ap (λ u. u.seats) (sym (ok-injective e)) ∙ eliminate_seats s h p)
    ∙ find-map pid g s.seats (λ x. ground arith)
    ∙ pick pid p.public_player_id h.phase (find test s.seats) (λ x f. find-some test s.seats x f)
