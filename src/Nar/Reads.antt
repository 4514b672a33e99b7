-- ===== src/Nar/Reads.antt =====
-- nar.py, tiers 4 and 5: investigations, the reads of the visit graph, cleaned deaths and reveals.
use padrino.Base.{
  Bool, ◌&&◌, ◌||◌, not, Option, none, some, List, [], ◌∷◌, ◌++◌, map, String, ◌==◌, length, filter,
  mem, is_some, is_empty, Dict, put, if◌then◌else◌, string_eq, option_eq, append_text, str,
}
use padrino.Game.{faction_eq, Role, role_eq, Seat, GameState, Finding, seat_by_public_id}
use padrino.Nar.Matrix.{NightActionKind}
use padrino.Nar.Intents.{NightActionIntent, sort_ids, tier_intents, valid_at}
use padrino.Nar.Visits.{VisitRecord, NightFeedback, feedback_for}
use padrino.Nar.Tiers.{
  InvestigationOutcome, DeathReveal, reason_resolved, finding_for, is_in, targets_of, actors_of,
  id_set,
}

-- What the loop of `_resolve_investigations` builds.
pub record Investigations : Type 0 where
  pub detective_finding : Option (String × Finding)
  pub outcomes : Dict String InvestigationOutcome
  pub feedback : List NightFeedback

abbrev at_seat : Option Seat → (Seat → Investigations) → Investigations → Investigations
at_seat none f inv = inv
at_seat (some seat) f inv = f seat

abbrev cons_reading :
    Option String → (String → NightFeedback) → List NightFeedback → List NightFeedback
cons_reading none f rest = rest
cons_reading (some target) f rest = f target ∷ rest

abbrev cons_reveal : Option Seat → (Seat → DeathReveal) → List DeathReveal → List DeathReveal
cons_reveal none f rest = rest
cons_reveal (some seat) f rest = f seat ∷ rest

-- The value of a finding, as it stands in the message.
unfoldable finding_value : Finding → String
finding_value Finding.mafia = "MAFIA"
finding_value Finding.town = "TOWN"

unfoldable investigation_message : String → Finding → String
unfolding finding_value
investigation_message target finding =
    append_text "Investigation result: "
      (append_text target (append_text " is " (append_text (finding_value finding) ".")))

-- An investigation whose target has a seat.
unfoldable pub investigate_seat :
    GameState
    → (eliminated framed : List String) → NightActionIntent
    → String
    → Seat
    → Investigations
    → Investigations
unfolding investigation_message
investigate_seat state eliminated framed intent target seat inv =
    let finding = finding_for seat framed in
    let outcome : InvestigationOutcome = record {
      target = some target;
      finding = some finding;
      reason = reason_resolved;
    } in
    let entry =
      record (feedback_for intent.actor "INVESTIGATION_RESULT"
        (investigation_message target finding) (some target)) { finding = some finding } in
    if mem intent.actor eliminated
    then record inv { outcomes = put intent.actor outcome inv.outcomes }
    else record {
      detective_finding =
          if valid_at (seat_by_public_id state intent.actor) (λ actor. actor.role == Role.detective)
            && not (is_some inv.detective_finding)
          then some (target, finding)
          else inv.detective_finding;
      outcomes = put intent.actor outcome inv.outcomes;
      feedback = inv.feedback ++ entry ∷ [];
    }

-- The body of the loop; the assertion that the target is given holds for every active intent.
unfoldable pub investigate_target :
    GameState
    → (eliminated framed : List String) → NightActionIntent
    → (target : Option String) → Investigations
    → Investigations
investigate_target state eliminated framed intent none inv = inv
investigate_target state eliminated framed intent (some target) inv =
    at_seat (seat_by_public_id state target)
      (λ seat. investigate_seat state eliminated framed intent target seat inv) inv

unfoldable pub investigate_loop :
    GameState
    → (eliminated framed : List String) → List NightActionIntent
    → Investigations
    → Investigations
unfolding investigate_target
investigate_loop state eliminated framed [] inv = inv
investigate_loop state eliminated framed (intent ∷ intents) inv =
    investigate_loop state eliminated framed intents
      (investigate_target state eliminated framed intent intent.target inv)

unfoldable pub resolve_investigations :
    GameState → List NightActionIntent → (eliminated framed : List String) → Investigations
unfolding investigate_loop
resolve_investigations state intents eliminated framed =
    investigate_loop state eliminated framed (tier_intents intents NightActionKind.investigate)
      (record { detective_finding = none; outcomes = []; feedback = [] })

-- `{visit.target for visit in visits if visit.actor == target and visit.target != actor}`
unfoldable pub visited_by : (target actor : String) → List VisitRecord → List String
visited_by target actor visits = id_set (
    map (λ visit. visit.target)
      (filter (λ visit. visit.actor == target && not (visit.target == actor)) visits))

-- `{visit.actor for visit in visits if visit.target == target and visit.actor != actor}`
unfoldable pub visitors_of : (target actor : String) → List VisitRecord → List String
visitors_of target actor visits = id_set (
    map (λ visit. visit.actor)
      (filter (λ visit. visit.target == target && not (visit.actor == actor)) visits))

unfoldable pub track_feedback :
    GameState → List VisitRecord → NightActionIntent → String → NightFeedback
track_feedback state visits intent target =
    let visited = visited_by target intent.actor visits in
    record (feedback_for intent.actor "TRACK_RESULT"
      (append_text "Track result: " (
        append_text target
          (append_text " visited " (append_text (str (length visited)) " player(s)."))))
      (some target)) { visited_player_ids = sort_ids state visited }

unfoldable pub watch_feedback :
    GameState → List VisitRecord → NightActionIntent → String → NightFeedback
watch_feedback state visits intent target =
    let visitors = visitors_of target intent.actor visits in
    record (feedback_for intent.actor "WATCH_RESULT"
      (append_text "Watch result: " (
        append_text target
          (append_text " was visited by " (append_text (str (length visitors)) " player(s)."))))
      (some target)) { visitor_player_ids = sort_ids state visitors }

-- One of the two loops of `_resolve_visit_graph_feedback`: the dead learn nothing.
unfoldable read_graph :
    (eliminated : List String)
    → (NightActionIntent → String → NightFeedback)
    → List NightActionIntent
    → List NightFeedback
read_graph eliminated reading [] = []
read_graph eliminated reading (intent ∷ intents) =
    let rest = read_graph eliminated reading intents in
    if mem intent.actor eliminated then rest else cons_reading intent.target (reading intent) rest

unfoldable pub resolve_visit_graph_feedback :
    GameState
    → List NightActionIntent
    → List VisitRecord
    → (eliminated : List String) → List NightFeedback
unfolding read_graph
resolve_visit_graph_feedback state intents visits eliminated =
    read_graph eliminated (track_feedback state visits) (tier_intents intents NightActionKind.track)
    ++ read_graph eliminated (watch_feedback state visits)
        (tier_intents intents NightActionKind.watch)

-- The cleaned deaths and the janitors who cleaned them. The source's early returns on empty sets give
-- the same two empty tuples.
unfoldable pub resolve_cleaned_deaths :
    GameState → List NightActionIntent → (eliminated : List String) → List String × List String
resolve_cleaned_deaths state intents eliminated =
    let cleans =
      filter (λ intent. is_in intent.target eliminated)
        (tier_intents intents NightActionKind.clean) in
    if is_empty eliminated || is_empty cleans
    then ([], [])
    else (sort_ids state (id_set (targets_of cleans)), sort_ids state (id_set (actors_of cleans)))

unfoldable pub reveal : String → (cleaned : Bool) → Seat → DeathReveal
reveal eliminated cleaned seat = record {
  public_player_id = eliminated;
  role = if cleaned then none else some seat.role;
  faction = if cleaned then none else some seat.faction;
  cleaned = cleaned;
}

unfoldable pub death_reveals :
    GameState → (eliminated cleaned_deaths : List String) → List DeathReveal
unfolding reveal
death_reveals state [] cleaned_deaths = []
death_reveals state (eliminated ∷ rest) cleaned_deaths =
    cons_reveal (seat_by_public_id state eliminated)
      (reveal eliminated (mem eliminated cleaned_deaths)) (death_reveals state rest cleaned_deaths)
