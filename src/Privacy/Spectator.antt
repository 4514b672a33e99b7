-- ===== src/Privacy/Spectator.antt =====
-- The identity mode, the guards by keys and the allowlists of observation_privacy.py, and all of
-- src/padrino/core/spectator_projection.py.
use padrino.Base.{
  Bool, not, Option, none, some, List, [], ◌∷◌, String, ◌==◌, string_eq, diff, if◌then◌else◌,
  Result, ok, err, ◌>>=◌,
}
use padrino.Json.{
  name_key, other_key, Value, none_value, str_value, list_value, tuple_value, dict_value, Items,
  no_items, item, Fields, no_fields, field, key_in,
}
use padrino.Json.Canonical.{key_text}
use padrino.Observations.{field_of}
use padrino.Privacy.{
  PrivacyError, anonymity_violation, forbidden_payload_keys, identity_marker_keys,
}

-- What `mode` may be: a value, or a member of an enumeration with its `.value`.
pub data IdentityMode : Type 0 where
  value_mode : Value → IdentityMode
  enum_mode : (value : Value) → IdentityMode

abbrev pub anonymous : String
anonymous = "ANONYMOUS"

abbrev pub transparent : String
transparent = "TRANSPARENT"

module _ (strip upper : String → String) where
  abbrev pub mode_of_raw : Value → String
  mode_of_raw (str_value raw) = if upper (strip raw) == transparent then transparent else anonymous
  mode_of_raw _ = anonymous

  unfoldable pub coerce_identity_mode : IdentityMode → String
  coerce_identity_mode (value_mode none_value) = anonymous
  coerce_identity_mode (value_mode raw) = mode_of_raw raw
  coerce_identity_mode (enum_mode raw) = mode_of_raw raw

  unfoldable pub is_anonymous : IdentityMode → Bool
  unfolding coerce_identity_mode
  is_anonymous mode = coerce_identity_mode mode == anonymous

-- The walk of `assert_anonymous_safe` and of `assert_no_identity_markers`, by the keys that each refuses.
unfoldable mutual
  pub assert_without : List String → Value → Result PrivacyError (Unit {0})
  assert_without keys (dict_value fs) = assert_fields_without keys fs
  assert_without keys (list_value xs) = assert_items_without keys xs
  assert_without keys (tuple_value xs) = assert_items_without keys xs
  assert_without keys _ = ok tt

  pub assert_fields_without : List String → Fields → Result PrivacyError (Unit {0})
  assert_fields_without keys no_fields = ok tt
  assert_fields_without keys (field key v fs) =
      let inner = assert_without keys v in
      let rest = assert_fields_without keys fs in
      if key_in key keys then err (anonymity_violation (key_text key)) else (inner >>= λ _. rest)

  pub assert_items_without : List String → Items → Result PrivacyError (Unit {0})
  assert_items_without keys no_items = ok tt
  assert_items_without keys (item v xs) =
      assert_without keys v >>= λ _. assert_items_without keys xs

unfoldable pub assert_anonymous_safe : Value → Result PrivacyError (Unit {0})
unfolding assert_without
assert_anonymous_safe payload = assert_without forbidden_payload_keys payload

unfoldable pub assert_no_identity_markers : Value → Result PrivacyError (Unit {0})
unfolding assert_without
assert_no_identity_markers payload = assert_without identity_marker_keys payload

abbrev pub public_seat_fields : List String
public_seat_fields = "public_player_id" ∷ "seat_index" ∷ "alive" ∷ "death_phase" ∷ []

abbrev pub public_game_fields : List String
public_game_fields =
    "public_id" ∷ "ruleset_id" ∷ "status" ∷ "broadcast_state" ∷ "created_at" ∷ "day" ∷ "phase" ∷ []

-- `{k: v for k, v in row.items() if k in allowlist}`
unfoldable pub only : List String → Fields → Fields
only allowlist no_fields = no_fields
only allowlist (field k v fs) =
    let rest = only allowlist fs in if key_in k allowlist then field k v rest else rest

module _ (strip upper : String → String) where
  unfoldable pub project_row_through_allowlist :
      Fields → List String → IdentityMode → Result PrivacyError Fields
  unfolding only is_anonymous assert_anonymous_safe
  project_row_through_allowlist row allowlist identity_mode =
      let projected = only allowlist row in
      if is_anonymous strip upper identity_mode
      then (assert_anonymous_safe (dict_value projected) >>= λ _. ok projected)
      else ok projected

  unfoldable pub project_seat_row : Fields → IdentityMode → Result PrivacyError Fields
  unfolding project_row_through_allowlist
  project_seat_row row identity_mode =
      project_row_through_allowlist row public_seat_fields identity_mode

  unfoldable pub project_game_row : Fields → IdentityMode → Result PrivacyError Fields
  unfolding project_row_through_allowlist
  project_game_row row identity_mode =
      project_row_through_allowlist row public_game_fields identity_mode

abbrev pub spectator_visible_visibility : String
spectator_visible_visibility = "PUBLIC"

unfoldable pub spectator_transparent_forbidden_payload_keys : List String
unfolding diff
spectator_transparent_forbidden_payload_keys = diff forbidden_payload_keys identity_marker_keys

unfoldable mutual
  pub strip_forbidden : List String → Value → Value
  strip_forbidden keys (dict_value fs) = dict_value (strip_fields keys fs)
  strip_forbidden keys (list_value xs) = list_value (strip_items keys xs)
  strip_forbidden keys (tuple_value xs) = tuple_value (strip_items keys xs)
  strip_forbidden keys v = v

  pub strip_fields : List String → Fields → Fields
  strip_fields keys no_fields = no_fields
  strip_fields keys (field k v fs) =
      let stripped = strip_forbidden keys v in
      let rest = strip_fields keys fs in if not (key_in k keys) then field k stripped rest else rest

  pub strip_items : List String → Items → Items
  strip_items keys no_items = no_items
  strip_items keys (item v xs) = item (strip_forbidden keys v) (strip_items keys xs)

-- `{**event, name: value}`
unfoldable pub with_field : String → Value → Fields → Fields
with_field name value no_fields = field (name_key name) value no_fields
with_field name value (field (other_key type_name shown) v fs) =
    field (other_key type_name shown) v (with_field name value fs)
with_field name value (field (name_key k) v fs) =
    let rest = with_field name value fs in
    if k == name then field (name_key k) value fs else field (name_key k) v rest

-- `event.get("payload", {})`
abbrev pub payload_or_empty : Option Value → Value
payload_or_empty none = dict_value no_fields
payload_or_empty (some v) = v

-- `stripped if isinstance(stripped, dict) else {}`
abbrev pub dict_or_empty : Value → Value
dict_or_empty (dict_value fs) = dict_value fs
dict_or_empty _ = dict_value no_fields

-- `str_of` is `str` of a value that is no text.
module _ (strip upper : String → String) (str_of : Value → String) where
  -- `str(event.get("visibility", ""))`
  abbrev pub visibility_text : Option Value → String
  visibility_text none = ""
  visibility_text (some (str_value s)) = s
  visibility_text (some v) = str_of v

  -- The projection of one event, by the keys to strip.
  unfoldable pub project_stripped : List String → Fields → Option Fields
  unfolding strip_forbidden with_field field_of
  project_stripped forbidden event =
      if not (upper (visibility_text (field_of "visibility" event)) == spectator_visible_visibility)
      then none
      else some (
          with_field "payload"
            (dict_or_empty
              (strip_forbidden forbidden (payload_or_empty (field_of "payload" event))))
            event)

  unfoldable pub project_event_for_spectator : Fields → Option Fields
  unfolding project_stripped
  project_event_for_spectator event = project_stripped forbidden_payload_keys event

  unfoldable pub project_event_for_spectator_mode : IdentityMode → Fields → Option Fields
  unfolding project_stripped is_anonymous spectator_transparent_forbidden_payload_keys
  project_event_for_spectator_mode identity_mode event =
      project_stripped
        (if is_anonymous strip upper identity_mode
          then forbidden_payload_keys
          else spectator_transparent_forbidden_payload_keys)
        event

  abbrev keep : Option Fields → List Fields → List Fields
  keep none projected = projected
  keep (some kept) projected = kept ∷ projected

  unfoldable pub project_events_for_spectator : List Fields → List Fields
  unfolding project_event_for_spectator
  project_events_for_spectator [] = []
  project_events_for_spectator (event ∷ events) =
      keep (project_event_for_spectator event) (project_events_for_spectator events)

  unfoldable pub project_events_for_spectator_mode : IdentityMode → List Fields → List Fields
  unfolding project_event_for_spectator_mode
  project_events_for_spectator_mode identity_mode [] = []
  project_events_for_spectator_mode identity_mode (event ∷ events) =
      keep (project_event_for_spectator_mode identity_mode event)
        (project_events_for_spectator_mode identity_mode events)
