-- ===== src/Reducer/Provenance.antt =====
-- `compute_seat_provenance` of reducer.py: who occupied each seat, from the log alone.
use padrino.Base.{
  ◌≡◌, refl, Bool, true, false, ◌||◌, Option, none, some, List, [], ◌∷◌, String, ◌==◌, arith,
  if◌then◌else◌, string_eq, String-discrete, Dict, get, put, setdefault, get-put,
}
use padrino.Reducer.Seats.{is_roles_assigned}
use padrino.Reducer.Roster.{keeps_roles}
use padrino.Game.{
  SeatKind, seat_kind_eq, SeatAssignment, Event, Header, GameCreatedPayload, RolesAssignedPayload,
  game_created, roles_assigned, seat_taken_over,
}

-- `"HUMAN" if kind == "HUMAN" else "AI"`
unfoldable pub provenance_of : Option SeatKind → String
provenance_of (some SeatKind.human) = "HUMAN"
provenance_of _ = "AI"

unfoldable pub assign_provenance : List SeatAssignment → Dict String String → Dict String String
assign_provenance [] provenance = provenance
assign_provenance (a ∷ assignments) provenance =
    assign_provenance assignments (put a.public_player_id (provenance_of a.seat_kind) provenance)

abbrev is_human : Option String → Bool
is_human none = false
is_human (some label) = label == "HUMAN"

unfoldable pub take_over : String → Dict String String → Dict String String
take_over pid provenance =
    if is_human (get pid provenance)
    then put pid "HUMAN_THEN_AI" provenance
    else setdefault pid "AI" provenance

unfoldable pub provenance_step : Dict String String → Event → Dict String String
provenance_step provenance (roles_assigned h actor payload) =
    assign_provenance payload.assignments provenance
provenance_step provenance (seat_taken_over h actor payload) =
    take_over payload.public_player_id provenance
provenance_step provenance _ = provenance

unfoldable pub provenance_from : Dict String String → List Event → Dict String String
provenance_from provenance [] = provenance
provenance_from provenance (e ∷ event_log) =
    provenance_from (provenance_step provenance e) event_log

unfoldable pub compute_seat_provenance : List Event → Dict String String
unfolding provenance_from
compute_seat_provenance event_log = provenance_from [] event_log

get-setdefault :
    (k j : String) (v : String) (d : Dict String String)
    → get j (setdefault k v d)
      ≡ (if k == j then elim (get k d) [ none ↦ some v | some w ↦ some w ] else get j d)
unfolding get setdefault
get-setdefault k j v [] = ground arith
get-setdefault k j v ((i, w) ∷ d) = ground (arith, get-setdefault k j v d)

-- The label of a seat after its takeover, from the label before.
abbrev pub taken : Option String → String
taken none = "AI"
taken (some label) = if label == "HUMAN" then "HUMAN_THEN_AI" else label

-- A takeover relabels the seat that it names, HUMAN to HUMAN_THEN_AI, a seat not yet known to AI, and
-- any other label to itself, and leaves every other seat's label.
get-take_over :
    (pid j : String) (d : Dict String String)
    → get j (take_over pid d) ≡ (if pid == j then some (taken (get pid d)) else get j d)
unfolding take_over
get-take_over pid j d = ground (arith, get-put pid j "HUMAN_THEN_AI" d, get-setdefault pid j "AI" d)

taken_not_human : ◌==◌ {A = String} "HUMAN_THEN_AI" "HUMAN" ≡ false
unfolding String-discrete
taken_not_human = refl

taken_idem : (o : Option String) → taken (some (taken o)) ≡ taken o
taken_idem none = unfold String-discrete in refl
taken_idem (some label) = ground (arith, taken_not_human)

-- The event is the takeover of the seat `j`.
abbrev takes : String → Event → Bool
takes j (seat_taken_over h actor payload) = payload.public_player_id == j
takes j _ = false

abbrev pub is_taken_over : String → List Event → Bool
is_taken_over j [] = false
is_taken_over j (e ∷ es) = takes j e || is_taken_over j es

provenance_step-takes :
    (j : String) (d : Dict String String) (e : Event)
    → is_roles_assigned e ≡ false
    → get j (provenance_step d e) ≡ (if takes j e then some (taken (get j d)) else get j d)
unfolding provenance_step
provenance_step-takes j d (roles_assigned h actor payload) k = absurd (ground arith)
provenance_step-takes j d (seat_taken_over h actor payload) k =
    ground (arith, get-take_over payload.public_player_id j d)
provenance_step-takes j d _ k = refl

provenance_from-is_taken_over :
    (j : String) (d : Dict String String) (es : List Event)
    → keeps_roles es ≡ true
    → get j (provenance_from d es)
      ≡ (if is_taken_over j es then some (taken (get j d)) else get j d)
unfolding provenance_from
provenance_from-is_taken_over j d [] k = refl
provenance_from-is_taken_over j d (e ∷ es) k = ground (
  arith,
  provenance_step-takes j d e,
  provenance_from-is_taken_over j (provenance_step d e) es,
  taken_idem (get j d),
)

-- In a game's log, which starts with `GameCreated` and `RolesAssigned` and has no later
-- `RolesAssigned`, a seat keeps the label of its assignment, HUMAN or AI, unless a `SeatTakenOver`
-- names it: then HUMAN becomes HUMAN_THEN_AI, a seat without a label gets AI, and AI stays.
pub compute_seat_provenance-is_taken_over :
    (created dealt : Header) (creator dealer : Option String) (game : GameCreatedPayload)
    → (roles : RolesAssignedPayload) (es : List Event) (j : String) → keeps_roles es ≡ true
    → get j (
        compute_seat_provenance
          (game_created created creator game ∷ roles_assigned dealt dealer roles ∷ es))
      ≡ (if is_taken_over j es
          then some (taken (get j (assign_provenance roles.assignments [])))
          else get j (assign_provenance roles.assignments []))
unfolding compute_seat_provenance provenance_from provenance_step
compute_seat_provenance-is_taken_over created dealt creator dealer game roles es j k =
    provenance_from-is_taken_over j (assign_provenance roles.assignments []) es k
