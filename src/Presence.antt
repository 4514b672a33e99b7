-- ===== src/Presence.antt =====
-- src/padrino/core/composition.py and core/disconnect.py: how many people and models sit at a table
-- (also after a takeover of runner/human_lane.py), and which seats a viewer may know to be connected.
pub mod Frozen
pub mod Grace
use padrino.Base.{
  ℕ, suc, ◌+◌, ◌-◌, Bool, true, false, ◌&&◌, ◌||◌, not, Option, none, some, List, [], ◌∷◌, map,
  filter, mem, String, ◌==◌, string_eq, leb, if◌then◌else◌,
}
use padrino.Game.{SeatKind, seat_kind_eq}

-- What a seat gives for its kind: a member, or a value of another type by its `str`.
pub data RawKind : Type 0 where
  member : SeatKind → RawKind
  shown : String → RawKind

-- A seat-like value: a member, a text, or a mapping or object with a `seat_kind` or none.
pub data SeatLike : Type 0 where
  kind_seat : SeatKind → SeatLike
  text_seat : String → SeatLike
  holding_seat : (seat_kind : Option RawKind) → SeatLike

pub record CompositionSummary : Type 0 where
  pub human_count : ℕ
  pub ai_count : ℕ
  pub total : ℕ

abbrev pub human_seat_kinds : List SeatKind
human_seat_kinds = SeatKind.human ∷ SeatKind.ai_takeover ∷ []

-- `SeatKind(text)`, `none` where it raises.
unfoldable pub seat_kind_named : String → Option SeatKind
seat_kind_named text =
    if text == "AI"
    then some SeatKind.ai
    else if text == "HUMAN"
    then some SeatKind.human
    else if text == "AI_TAKEOVER"
    then some SeatKind.ai_takeover
    else none

abbrev pub of_raw : Option RawKind → Option SeatKind
of_raw none = none
of_raw (some (member kind)) = some kind
of_raw (some (shown text)) = seat_kind_named text

unfoldable pub seat_kind_of : SeatLike → Option SeatKind
unfolding seat_kind_named
seat_kind_of (kind_seat kind) = some kind
seat_kind_of (text_seat text) = seat_kind_named text
seat_kind_of (holding_seat raw) = of_raw raw

-- `kind in _HUMAN_SEAT_KINDS`
abbrev pub is_human_kind : Option SeatKind → Bool
is_human_kind none = false
is_human_kind (some kind) = mem kind human_seat_kinds

-- The loop of `composition_summary`, from the two counts so far.
unfoldable pub count_seats : ℕ → ℕ → List SeatLike → CompositionSummary
unfolding seat_kind_of mem
count_seats human_count ai_count [] = record {
  human_count = human_count;
  ai_count = ai_count;
  total = human_count + ai_count;
}
count_seats human_count ai_count (seat ∷ seats) =
    let human = count_seats (suc human_count) ai_count seats in
    let ai = count_seats human_count (suc ai_count) seats in
    if is_human_kind (seat_kind_of seat) then human else ai

unfoldable pub composition_summary : List SeatLike → CompositionSummary
unfolding count_seats
composition_summary seats = count_seats 0 0 seats

-- `seat.seat_kind = SeatKind.AI_TAKEOVER.value`, on a seat whose kind is the text `HUMAN`; a seat of
-- another kind is not taken over.
unfoldable pub take_over_row : SeatLike → SeatLike
take_over_row (holding_seat (some (shown text))) =
    holding_seat (some (shown (if text == "HUMAN" then "AI_TAKEOVER" else text)))
take_over_row seat = seat

-- A moment with its offset, or a reading without one that stands for UTC.
pub data Datetime : Type 0 where
  aware : (instant : ℕ) → Datetime
  naive : (utc_reading : ℕ) → Datetime

-- `_as_aware`, as an instant.
abbrev pub as_aware : Datetime → ℕ
as_aware (aware instant) = instant
as_aware (naive utc_reading) = utc_reading

pub record SeatPresence : Type 0 where
  pub public_player_id : String
  pub connected : Bool
  pub disconnected_at : Option Datetime

-- `disconnected_at >= now - grace`, where no instant is before 0.
abbrev pub dropped_within : ℕ → ℕ → Option Datetime → Bool
dropped_within now grace none = true
dropped_within now grace (some disconnected_at) = leb (now - grace) (as_aware disconnected_at)

unfoldable pub is_within_grace : ℕ → ℕ → SeatPresence → Bool
is_within_grace now grace presence =
    if presence.connected then true else dropped_within now grace presence.disconnected_at

unfoldable pub seats_past_grace : ℕ → ℕ → List SeatPresence → List String
unfolding is_within_grace
seats_past_grace now grace presences =
    map (λ p. p.public_player_id) (filter (λ p. not (is_within_grace now grace p)) presences)

-- An entry of the frame: `{"seat_id": ..., "connected": ...}`.
pub record PresenceEntry : Type 0 where
  pub seat_id : String
  pub connected : Bool

abbrev pub entry_of : SeatPresence → PresenceEntry
entry_of p = record { seat_id = p.public_player_id; connected = p.connected }

abbrev pub is_viewer : String → SeatPresence → Bool
is_viewer viewer_seat_id p = p.public_player_id == viewer_seat_id

-- `anonymous` is what `is_anonymous(identity_mode)` says.
unfoldable pub project_presence_for_viewer : Bool → String → List SeatPresence → List PresenceEntry
project_presence_for_viewer anonymous viewer_seat_id presences =
    map entry_of (if anonymous then filter (is_viewer viewer_seat_id) presences else presences)
