-- ===== src/Presence/Frozen.antt =====
-- The composition of a table under takeovers and under the events of a game.
use mathlib.Core.Path.{subst}
use padrino.Base.{
  ℕ, suc, ◌+◌, ◌≡◌, refl, sym, ap, ◌∙◌, Bool, true, false, ◌||◌, Option, none, some, List, [], ◌∷◌,
  map, length, mem, count_if, not, ◌==◌, string_eq, String, String-discrete, inl, inr, Bool-cases,
  if◌then◌else◌, ok, arith,
}
use padrino.Game.{SeatKind, SeatKind-discrete, seat_kind_eq, Seat, GameState, Event}
use padrino.Presence.{
  SeatLike, RawKind, member, shown, text_seat, seat_kind_named, kind_seat, holding_seat,
  is_human_kind, seat_kind_of, count_seats, composition_summary, take_over_row,
}
use padrino.Reducer.{replay_from}
use padrino.Reducer.Seats.{identity}
use padrino.Reducer.Roster.{keeps_roles, replay_from-identity}

-- A seat of the state, as `composition_summary` takes it.
abbrev raw_of : Option SeatKind → Option RawKind
raw_of none = none
raw_of (some kind) = some (member kind)

abbrev pub seat_like : Seat → SeatLike
seat_like s = holding_seat (raw_of s.seat_kind)

of_identity :
    (seats : List Seat)
    → map seat_like seats ≡ map (λ i. holding_seat (raw_of i.seat_kind)) (map identity seats)
of_identity [] = refl
of_identity (s ∷ seats) = ap (λ rest. seat_like s ∷ rest) (of_identity seats)

-- Folding a log without `RolesAssigned`, whatever takeovers it has, leaves the composition of the seats
-- as it was.
pub composition_summary-replay_from :
    (s t : GameState) (es : List Event)
    → keeps_roles es ≡ true
    → replay_from s es ≡ ok t
    → composition_summary (map seat_like t.seats) ≡ composition_summary (map seat_like s.seats)
composition_summary-replay_from s t es k r = ap composition_summary (
    of_identity t.seats
    ∙ ap (map (λ i. holding_seat (raw_of i.seat_kind))) (replay_from-identity s t es k r)
    ∙ sym (of_identity s.seats))

-- Who counts as a person: a human, or a human whom a model has replaced, however the kind is given.
abbrev is_person_text : String → Bool
is_person_text text = text == "HUMAN" || text == "AI_TAKEOVER"

abbrev is_person_kind : SeatKind → Bool
is_person_kind SeatKind.human = true
is_person_kind SeatKind.ai = false
is_person_kind SeatKind.ai_takeover = true

abbrev pub is_person : SeatLike → Bool
is_person (kind_seat kind) = is_person_kind kind
is_person (text_seat text) = is_person_text text
is_person (holding_seat none) = false
is_person (holding_seat (some (member kind))) = is_person_kind kind
is_person (holding_seat (some (shown text))) = is_person_text text

path_of : (s t : String) → s == t ≡ true → s ≡ t
path_of s t h = ground arith

named_person : (text : String) → is_human_kind (seat_kind_named text) ≡ is_person_text text
unfolding seat_kind_named mem SeatKind-discrete String-discrete
named_person text = elim (Bool-cases (text == "AI")) [
  | inl e ↦
      let at : text ≡ "AI" = path_of text "AI" e in
      subst (λ t. is_human_kind (seat_kind_named t) ≡ is_person_text t) (sym at) refl
  | inr e ↦ elim (Bool-cases (text == "HUMAN")) [
    | inl h ↦ rw e (rw h refl)
    | inr h ↦ elim (Bool-cases (text == "AI_TAKEOVER")) [
      | inl t ↦ rw e (rw h (rw t refl))
      | inr t ↦ rw e (rw h (rw t refl))
    ]
  ]
]

kind_person : (kind : SeatKind) → is_human_kind (some kind) ≡ is_person_kind kind
unfolding mem SeatKind-discrete
kind_person SeatKind.human = refl
kind_person SeatKind.ai = refl
kind_person SeatKind.ai_takeover = refl

counted_person : (seat : SeatLike) → is_human_kind (seat_kind_of seat) ≡ is_person seat
unfolding seat_kind_of
counted_person (kind_seat kind) = kind_person kind
counted_person (text_seat text) = named_person text
counted_person (holding_seat none) = refl
counted_person (holding_seat (some (member kind))) = kind_person kind
counted_person (holding_seat (some (shown text))) = named_person text

is_person-take_over_row : (seat : SeatLike) → is_person (take_over_row seat) ≡ is_person seat
unfolding take_over_row String-discrete
is_person-take_over_row (kind_seat kind) = refl
is_person-take_over_row (text_seat text) = refl
is_person-take_over_row (holding_seat none) = refl
is_person-take_over_row (holding_seat (some (member kind))) = refl
is_person-take_over_row (holding_seat (some (shown text))) = elim (Bool-cases (text == "HUMAN")) [
  | inl e ↦ rw e refl
  | inr e ↦ ap (λ b. is_person_text (if b then "AI_TAKEOVER" else text)) e
]

is_person-after :
    (taken : SeatLike → Bool) (seat : SeatLike)
    → is_person (if taken seat then take_over_row seat else seat) ≡ is_person seat
is_person-after taken seat = elim (Bool-cases (taken seat)) [
  | inl e ↦ rw e (is_person-take_over_row seat)
  | inr e ↦ rw e refl
]

-- The loop counts the people of the seats of which the given ones are an image.
count_seats-is_person :
    (after : SeatLike → SeatLike)
    → ((s : SeatLike) → is_human_kind (seat_kind_of (after s)) ≡ is_person s)
    → (humans ais : ℕ) (seats : List SeatLike)
    → ((count_seats humans ais (map after seats)).human_count ≡ humans + count_if is_person seats)
      × ((count_seats humans ais (map after seats)).ai_count
          ≡ ais + count_if (λ s. not (is_person s)) seats)
      × ((count_seats humans ais (map after seats)).total ≡ humans + ais + length seats)
unfolding count_seats count_if
count_seats-is_person after agree humans ais [] = (omega arith, omega arith, omega arith)
count_seats-is_person after agree humans ais (s ∷ seats) = elim (Bool-cases (is_person s)) [
  | inl e ↦
      let (people, models, all) = count_seats-is_person after agree (suc humans) ais seats in
      rw (agree s) (rw e (omega (arith, people), omega (arith, models), omega (arith, all)))
  | inr e ↦
      let (people, models, all) = count_seats-is_person after agree humans (suc ais) seats in
      rw (agree s) (rw e (omega (arith, people), omega (arith, models), omega (arith, all)))
]

-- Whichever of the seats are then taken over, composition_summary counts as human the seats that were of
-- the kind HUMAN or AI_TAKEOVER before, given as a member, a text or a row, as AI all other seats, and
-- in total the seats.
pub composition_summary-takeover :
    (taken : SeatLike → Bool) (seats : List SeatLike)
    → ((composition_summary (map (λ s. if taken s then take_over_row s else s) seats)).human_count
        ≡ count_if is_person seats)
      × ((composition_summary (map (λ s. if taken s then take_over_row s else s) seats)).ai_count
          ≡ count_if (λ s. not (is_person s)) seats)
      × ((composition_summary (map (λ s. if taken s then take_over_row s else s) seats)).total
          ≡ length seats)
unfolding composition_summary
composition_summary-takeover taken seats =
    let (people, models, all) =
      count_seats-is_person (λ s. if taken s then take_over_row s else s)
        (λ s. counted_person (if taken s then take_over_row s else s) ∙ is_person-after taken s) 0 0
        seats in
    (omega (arith, people), omega (arith, models), omega (arith, all))
