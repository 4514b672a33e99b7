-- ===== src/Observations/Entries.antt =====
-- `format_phase_id` and what is read from the stored bodies: the entries shown, the dead, inspections and
-- night feedback.
use padrino.Base.{
  ℕ, zero, suc, ◌=ℕ=◌, ◌-◌, Bool, false, ◌&&◌, ◌||◌, not, Option, none, some, List, [], ◌∷◌, map,
  filter, String, append_text, str, ◌==◌, string_eq, option_eq, mem, length, ltb, if◌then◌else◌,
  Result, ok, ◌>>=◌,
}
use padrino.Game.{role_eq, Faction, faction_eq, PhaseKind, Phase, Seat, GameState}
use padrino.Json.{key_in, Value, str_value, dict_value, Fields, no_fields, field}
use padrino.Chain.{StoredEvent}
use padrino.Observations.{
  DeadPlayerInfo, EventEntry, InspectionResultEntry, RoleFeedbackEntry, ObservationRuleset,
  BodyError, field_of, item_of, text_field, optional_text_field, fields_of, payload_field,
  required_finding, optional_finding, text_tuple,
}

unfoldable pub format_phase_id : Phase → String
format_phase_id phase = elim phase.kind [
  | PhaseKind.setup ↦ "SETUP"
  | PhaseKind.terminal ↦ "TERMINAL"
  | PhaseKind.night_0_mafia_intro ↦ "NIGHT_0_MAFIA_INTRO"
  | PhaseKind.day_discussion ↦
      append_text "DAY_"
        (append_text (str phase.day) (append_text "_DISCUSSION_ROUND_" (str phase.round)))
  | PhaseKind.day_vote ↦ append_text "DAY_" (append_text (str phase.day) "_VOTE")
  | PhaseKind.night_mafia_discussion ↦
      append_text "NIGHT_" (append_text (str phase.day) "_MAFIA_DISCUSSION")
  | PhaseKind.night_actions ↦ append_text "NIGHT_" (append_text (str phase.day) "_ACTIONS")
]

-- `body.get(name) == text`
abbrev pub is_text : Option Value → String → Bool
is_text (some (str_value s)) t = s == t
is_text _ t = false

-- `{k: v for k, v in payload.items() if k not in names}`
unfoldable pub without : List String → Fields → Fields
without names no_fields = no_fields
without names (field k v fs) =
    let rest = without names fs in if key_in k names then rest else field k v rest

abbrev or_empty : Option Value → Value
or_empty none = dict_value no_fields
or_empty (some v) = v

-- The payload that `_entry_from_stored` passes on.
unfoldable pub entry_payload : Value → Value → Result BodyError Value
unfolding without
entry_payload event_type payload =
    if is_text (some event_type) "PlayerEliminated"
    then (fields_of payload >>= λ fs. ok (dict_value (without ("role" ∷ "faction" ∷ []) fs)))
    else ok payload

unfoldable pub entry_from_stored : Fields → ℕ → Result BodyError EventEntry
unfolding item_of entry_payload payload_field field_of
entry_from_stored stored_body sequence = item_of "event_type" stored_body >>= λ event_type.
    entry_payload event_type (or_empty (field_of "payload" stored_body)) >>= λ payload.
    item_of "phase" stored_body >>= λ phase. text_field phase >>= λ phase_text.
    text_field event_type >>= λ event_type_text.
    optional_text_field (field_of "actor_player_id" stored_body) >>= λ actor_player_id.
    payload_field payload >>= λ payload_fields. ok (record {
      sequence = sequence;
      phase = phase_text;
      event_type = event_type_text;
      actor_player_id = actor_player_id;
      payload = payload_fields;
    })

abbrev pub mafia_seat_ids : GameState → List String
mafia_seat_ids state =
    map (λ s. s.public_player_id) (filter (λ s. s.faction == Faction.mafia) state.seats)

-- `actor in ids`
abbrev pub actor_in : Option Value → List String → Bool
actor_in (some (str_value s)) ids = mem s ids
actor_in _ ids = false

unfoldable pub is_public : StoredEvent → Bool
unfolding field_of
is_public stored = is_text (field_of "visibility" stored.body) "PUBLIC"

-- A PRIVATE event that the seat may see.
unfoldable pub is_own_private : GameState → Seat → StoredEvent → Bool
unfolding field_of
is_own_private state seat stored =
    let actor = field_of "actor_player_id" stored.body in
    is_text (field_of "visibility" stored.body) "PRIVATE"
    && (is_text actor seat.public_player_id
        || seat.faction == Faction.mafia && actor_in actor (mafia_seat_ids state))

-- The loop of `_filter_events`: the public and the private entries, in the log's order.
unfoldable pub split_events :
    GameState → Seat → List StoredEvent → Result BodyError (List EventEntry × List EventEntry)
unfolding is_public is_own_private entry_from_stored
split_events state seat [] = ok ([], [])
split_events state seat (stored ∷ events) =
    let rest = split_events state seat events in
    if is_public stored
    then (entry_from_stored stored.body stored.sequence >>= λ entry.
        rest >>= λ entries. ok (entry ∷ entries.0, entries.1))
    else if is_own_private state seat stored
    then (entry_from_stored stored.body stored.sequence >>= λ entry.
        rest >>= λ entries. ok (entries.0, entry ∷ entries.1))
    else rest

unfoldable pub drop {ℓ} : {A : Type ℓ} → ℕ → List A → List A
drop zero xs = xs
drop (suc n) [] = []
drop (suc n) (x ∷ xs) = drop n xs

-- `xs[-limit:]` where there are more than `limit`; `xs[-0:]` is all of `xs`.
unfoldable pub recent {ℓ} : {A : Type ℓ} → ℕ → List A → List A
unfolding drop
recent limit xs =
    if ltb limit (length xs) && not (limit =ℕ= 0) then drop (length xs - limit) xs else xs

unfoldable pub filter_events :
    GameState
    → Seat
    → List StoredEvent
    → ObservationRuleset
    → Result BodyError (List EventEntry × List EventEntry)
unfolding split_events recent
filter_events state seat event_log rules = split_events state seat event_log >>= λ entries.
    ok (recent rules.public_transcript_recent_message_limit (entries.0), entries.1)

unfoldable pub is_type : String → StoredEvent → Bool
unfolding field_of
is_type event_type stored = is_text (field_of "event_type" stored.body) event_type

-- An event of the type with the seat as its actor.
unfoldable pub is_own : String → Seat → StoredEvent → Bool
unfolding is_type
is_own event_type seat stored =
    is_type event_type stored
    && is_text (field_of "actor_player_id" stored.body) seat.public_player_id

-- One loop over the log that reads the events that pass a test.
unfoldable pub read_where {ℓ} :
    {A : Type ℓ}
    → (StoredEvent → Bool)
    → (Fields → Result BodyError A)
    → List StoredEvent
    → Result BodyError (List A)
read_where test read [] = ok []
read_where test read (stored ∷ events) =
    let rest = read_where test read events in
    if test stored
    then (read stored.body >>= λ entry. rest >>= λ entries. ok (entry ∷ entries))
    else rest

unfoldable pub dead_player : Fields → Result BodyError DeadPlayerInfo
unfolding item_of
dead_player body = item_of "payload" body >>= λ value. fields_of value >>= λ payload.
    item_of "public_player_id" payload >>= λ player_id. item_of "phase" body >>= λ phase.
    item_of "cause" payload >>= λ cause. text_field player_id >>= λ player_id_text.
    text_field phase >>= λ phase_text. text_field cause >>= λ cause_text.
    ok (record { player_id = player_id_text; day_or_night = phase_text; cause = cause_text })

unfoldable pub dead_players : List StoredEvent → Result BodyError (List DeadPlayerInfo)
unfolding is_type read_where dead_player
dead_players event_log = read_where (is_type "PlayerEliminated") dead_player event_log

unfoldable pub inspection_entry : Fields → Result BodyError InspectionResultEntry
unfolding item_of required_finding
inspection_entry body = item_of "payload" body >>= λ value. fields_of value >>= λ payload.
    item_of "target" payload >>= λ target. item_of "finding" payload >>= λ finding.
    item_of "phase" body >>= λ phase. text_field target >>= λ target_text.
    required_finding finding >>= λ finding_value. text_field phase >>= λ phase_text.
    ok (record { target = target_text; finding = finding_value; phase = phase_text })

unfoldable pub inspection_history :
    Seat → List StoredEvent → Result BodyError (List InspectionResultEntry)
unfolding is_own read_where inspection_entry
inspection_history seat event_log =
    read_where (is_own "DetectiveResultDelivered" seat) inspection_entry event_log

unfoldable pub feedback_entry : Fields → Result BodyError RoleFeedbackEntry
unfolding item_of field_of optional_finding text_tuple
feedback_entry body = item_of "payload" body >>= λ value. fields_of value >>= λ payload.
    item_of "code" payload >>= λ code. item_of "phase" body >>= λ phase.
    text_tuple (field_of "visited_player_ids" payload) >>= λ visited_player_ids.
    text_tuple (field_of "visitor_player_ids" payload) >>= λ visitor_player_ids.
    text_field code >>= λ code_text. text_field phase >>= λ phase_text.
    optional_text_field (field_of "target" payload) >>= λ target.
    optional_finding (field_of "finding" payload) >>= λ finding. ok (record {
      code = code_text;
      phase = phase_text;
      target = target;
      finding = finding;
      visited_player_ids = visited_player_ids;
      visitor_player_ids = visitor_player_ids;
    })

unfoldable pub role_feedback : Seat → List StoredEvent → Result BodyError (List RoleFeedbackEntry)
unfolding is_own read_where feedback_entry
role_feedback seat event_log =
    read_where (is_own "NightFeedbackDelivered" seat) feedback_entry event_log
