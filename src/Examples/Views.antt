-- ===== src/Examples/Views.antt =====
-- What a mafia seat is shown of a log with a hidden event, and events and rows on their way to a
-- spectator.
use padrino.Base.{
  string_eq, ◌≡◌, ◌⊎◌, refl, ok, true, false, none, some, List, [], ◌∷◌, All, filter, is_empty, mem,
  String, String-discrete, if◌then◌else◌,
}
use padrino.Json.{
  name_key, Value, str_value, int_value, dict_value, list_value, no_items, item, Fields, no_fields,
  field,
}
use padrino.Game.{pos}
use padrino.Legal.{empty}
use padrino.Chain.{StoredEvent}
use padrino.Observations.{Observation, ObservationRuleset, EventEntry, field_of}
use padrino.Observations.Build.{build_observation}
use padrino.Observations.Hidden.{may_see, is_labelled, build_observation-filter}
use padrino.Privacy.{audit_observation_log_for_seat}
use padrino.Privacy.Audit.{all_safe, audit_observation_log_for_seat-all_safe}
use padrino.Privacy.Spectator.{
  IdentityMode, value_mode, is_anonymous, project_events_for_spectator_mode,
  project_row_through_allowlist, public_seat_fields, assert_anonymous_safe,
}
use padrino.Privacy.Projected.{
  IsClean, hidden_keys, project_events_for_spectator_mode-IsClean,
  project_row_through_allowlist-field_of,
}
use padrino.Examples.Table.{night_state, goon}

abbrev entry : String → Value → Fields → Fields
entry name value rest = field (name_key name) value rest

abbrev body_of : (visibility event_type actor : String) → Fields → Fields
body_of visibility event_type actor payload = entry "visibility" (str_value visibility) (
    entry "event_type" (str_value event_type) (
      entry "phase" (str_value "NIGHT_1_ACTIONS") (
        entry "actor_player_id" (str_value actor)
          (entry "payload" (dict_value payload) no_fields))))

abbrev stored : Fields → StoredEvent
stored body = record { sequence = 0; prev_event_hash = ""; event_hash = ""; body = body }

abbrev spoken : Fields
spoken =
    body_of "PUBLIC" "PublicMessageSubmitted" "P04" (entry "text" (str_value "hello") no_fields)

abbrev inspected : Fields
inspected =
    body_of "PRIVATE" "InvestigateSubmitted" "P05" (entry "target" (str_value "P01") no_fields)

abbrev told : Fields
told =
    body_of "PRIVATE" "DetectiveResultDelivered" "P05"
      (entry "target" (str_value "P01") (entry "finding" (str_value "MAFIA") no_fields))

abbrev died : Fields
died =
    body_of "PUBLIC" "PlayerEliminated" "P04" (
      entry "public_player_id" (str_value "P04") (entry "cause" (str_value "MAFIA_KILL") no_fields))

abbrev night_log : List StoredEvent
night_log = stored spoken ∷ stored inspected ∷ stored told ∷ stored died ∷ []

abbrev rules : ObservationRuleset
rules = record {
  ruleset_id = "mini7_v1";
  public_message_max_chars = 600;
  private_message_max_chars = 400;
  memory_update_max_chars = 1200;
  public_transcript_recent_message_limit = 30;
}

night_log_labelled : All (λ e. is_labelled e ≡ true) night_log
unfolding is_labelled field_of String-discrete
night_log_labelled = (refl, (refl, (refl, (refl, tt))))

build_observation-filter_example :
    build_observation night_state goon (filter (may_see night_state goon) night_log) rules ""
    ≡ build_observation night_state goon night_log rules ""
build_observation-filter_example =
    build_observation-filter night_state goon night_log rules "" night_log_labelled

abbrev leaky : EventEntry
leaky = record {
  sequence = 3;
  phase = "DAY_1_VOTE";
  event_type = "VoteSubmitted";
  actor_player_id = some "P02";
  payload =
      entry "votes"
        (list_value (item (dict_value (entry "model_id" (str_value "m") no_fields)) no_items))
        no_fields;
}

abbrev seen : Observation
seen = record {
  ruleset_id = "mini7_v1";
  game_public_id = "g1";
  phase = "DAY_1_VOTE";
  day = 1;
  round = 0;
  you = record {
    player_id = goon.public_player_id;
    alive = true;
    role = goon.role;
    faction = goon.faction;
  };
  alive_players = [];
  dead_players = [];
  public_events = leaky ∷ [];
  private_events = [];
  legal_actions = empty;
  your_private_memory = "nothing yet";
  message_limits = record {
    public_message_max_chars = 600;
    private_message_max_chars = 400;
    memory_update_max_chars = 1200;
  };
  mafia_teammates = none;
  mason_partners = none;
  previous_protected_target = none;
  inspection_history = none;
  role_feedback = [];
  identity_disclosure = none;
}

abbrev same_text : String → String
same_text text = text

abbrev no_text : Value → String
no_text value = ""

audit_observation_log_for_seat-all_safe_example :
    is_empty (audit_observation_log_for_seat same_text (seen ∷ []) "P01")
    ≡ all_safe same_text (seen ∷ [])
audit_observation_log_for_seat-all_safe_example =
    audit_observation_log_for_seat-all_safe same_text (seen ∷ []) "P01"

abbrev eliminated : Fields
eliminated =
    body_of "PUBLIC" "PlayerEliminated" "P04"
      (entry "public_player_id" (str_value "P04") (entry "role" (str_value "DOCTOR") no_fields))

abbrev open_game : IdentityMode
open_game = value_mode (str_value "TRANSPARENT")

project_events_for_spectator_mode-IsClean_example :
    All
      (IsClean same_text same_text no_text
        (hidden_keys (is_anonymous same_text same_text open_game)))
      (project_events_for_spectator_mode same_text same_text no_text open_game
        (spoken ∷ inspected ∷ eliminated ∷ []))
project_events_for_spectator_mode-IsClean_example =
    project_events_for_spectator_mode-IsClean same_text same_text no_text open_game
      (spoken ∷ inspected ∷ eliminated ∷ [])

abbrev row : Fields
row =
    entry "public_player_id" (str_value "P01")
      (entry "seat_kind" (str_value "HUMAN") (entry "seat_index" (int_value (pos 0)) no_fields))

abbrev public_row : Fields
public_row =
    entry "public_player_id" (str_value "P01") (entry "seat_index" (int_value (pos 0)) no_fields)

abbrev hidden_game : IdentityMode
hidden_game = value_mode (str_value "ANONYMOUS")

projected_row :
    project_row_through_allowlist same_text same_text row public_seat_fields hidden_game
    ≡ ok public_row
unfolding project_row_through_allowlist mem String-discrete
projected_row = refl

project_row_through_allowlist-field_of_example :
    ((name : String)
      → field_of name public_row
        ≡ (if mem name public_seat_fields then field_of name row else none))
    × ((is_anonymous same_text same_text hidden_game ≡ false)
        ⊎ (assert_anonymous_safe (dict_value public_row) ≡ ok tt))
project_row_through_allowlist-field_of_example =
    project_row_through_allowlist-field_of same_text same_text row public_seat_fields hidden_game
      public_row projected_row
