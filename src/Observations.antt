-- ===== src/Observations.antt =====
-- src/padrino/core/observations.py: what a seat is shown. `Entries` reads the stored event bodies and
-- `Build` assembles the observation; the records are here, with the readings of a body's fields.
pub mod Entries
pub mod Build
pub mod Hidden
use Prim.Native.Char.{Char}
use padrino.Base.{
  ℕ, Bool, true, false, Option, none, some, List, [], ◌∷◌, String, ◌==◌, string_eq, mem,
  if◌then◌else◌, Result, ok, err, ◌>>=◌,
}
use padrino.Game.{Role, Faction, Finding}
use padrino.Legal.{LegalActions}
use padrino.Json.{
  Key, name_key, other_key, Value, none_value, str_value, list_value, tuple_value, dict_value,
  Items, no_items, item, Fields, no_fields, field,
}

pub record YouInfo : Type 0 where
  pub player_id : String
  pub alive : Bool
  pub role : Role
  pub faction : Faction

pub record DeadPlayerInfo : Type 0 where
  pub player_id : String
  pub day_or_night : String
  pub cause : String

pub record EventEntry : Type 0 where
  pub sequence : ℕ
  pub phase : String
  pub event_type : String
  pub actor_player_id : Option String
  pub payload : Fields

pub record MessageLimits : Type 0 where
  pub public_message_max_chars : ℕ
  pub private_message_max_chars : ℕ
  pub memory_update_max_chars : ℕ

pub record InspectionResultEntry : Type 0 where
  pub target : String
  pub finding : Finding
  pub phase : String

pub record RoleFeedbackEntry : Type 0 where
  pub code : String
  pub phase : String
  pub target : Option String
  pub finding : Option Finding
  pub visited_player_ids : List String
  pub visitor_player_ids : List String

pub record SeatIdentity : Type 0 where
  pub public_player_id : String
  pub is_human : Bool
  pub seat_kind : Option String
  pub model_id : Option String
  pub provider : Option String
  pub agent_build_id : Option String

pub record Observation : Type 0 where
  pub ruleset_id : String
  pub game_public_id : String
  pub phase : String
  pub day : ℕ
  pub round : ℕ
  pub you : YouInfo
  pub alive_players : List String
  pub dead_players : List DeadPlayerInfo
  pub public_events : List EventEntry
  pub private_events : List EventEntry
  pub legal_actions : LegalActions
  pub your_private_memory : String
  pub message_limits : MessageLimits
  pub mafia_teammates : Option (List String)
  pub mason_partners : Option (List String)
  pub previous_protected_target : Option String
  pub inspection_history : Option (List InspectionResultEntry)
  pub role_feedback : List RoleFeedbackEntry
  pub identity_disclosure : Option (List SeatIdentity)

pub record ObservationRuleset : Type 0 where
  pub ruleset_id : String
  pub public_message_max_chars : ℕ
  pub private_message_max_chars : ℕ
  pub memory_update_max_chars : ℕ
  pub public_transcript_recent_message_limit : ℕ

-- What reading a stored body can raise.
pub data BodyError : Type 0 where
  -- `KeyError` of `body[name]`
  missing : (name : String) → BodyError
  -- a method or an iteration that the value does not have
  wrong_type : BodyError
  -- pydantic's refusal of a field
  validation_error : BodyError

-- `body.get(name)`, `none` for a key that is missing.
unfoldable pub field_of : String → Fields → Option Value
field_of name no_fields = none
field_of name (field (other_key type_name shown) v fs) = field_of name fs
field_of name (field (name_key k) v fs) =
    let rest = field_of name fs in if k == name then some v else rest

abbrev required : String → Option Value → Result BodyError Value
required name none = err (missing name)
required name (some v) = ok v

-- `body[name]`
unfoldable pub item_of : String → Fields → Result BodyError Value
unfolding field_of
item_of name fs = required name (field_of name fs)

-- A field declared `str`.
abbrev pub text_field : Value → Result BodyError String
text_field (str_value s) = ok s
text_field _ = err validation_error

-- A field declared `str | None`, from `.get`.
abbrev pub optional_text_field : Option Value → Result BodyError (Option String)
optional_text_field none = ok none
optional_text_field (some none_value) = ok none
optional_text_field (some (str_value s)) = ok (some s)
optional_text_field (some _) = err validation_error

-- `get(name)` of a value that is used as a dictionary.
abbrev pub fields_of : Value → Result BodyError Fields
fields_of (dict_value fs) = ok fs
fields_of _ = err wrong_type

unfoldable pub has_text_keys : Fields → Bool
has_text_keys no_fields = true
has_text_keys (field (other_key type_name shown) v fs) = false
has_text_keys (field (name_key k) v fs) = has_text_keys fs

-- The field `payload: dict[str, Any]`.
unfoldable pub payload_field : Value → Result BodyError Fields
unfolding has_text_keys
payload_field (dict_value fs) = if has_text_keys fs then ok fs else err validation_error
payload_field _ = err validation_error

abbrev finding_field : String → Result BodyError Finding
finding_field s =
    if s == "MAFIA"
    then ok Finding.mafia
    else if s == "TOWN"
    then ok Finding.town
    else err validation_error

-- A field declared `Literal["MAFIA", "TOWN"]`.
unfoldable pub required_finding : Value → Result BodyError Finding
required_finding (str_value s) = finding_field s
required_finding _ = err validation_error

unfoldable pub optional_finding : Option Value → Result BodyError (Option Finding)
optional_finding none = ok none
optional_finding (some none_value) = ok none
optional_finding (some (str_value s)) = finding_field s >>= λ finding. ok (some finding)
optional_finding (some _) = err validation_error

unfoldable pub text_items : Items → Result BodyError (List String)
text_items no_items = ok []
text_items (item (str_value s) xs) = text_items xs >>= λ rest. ok (s ∷ rest)
text_items (item _ xs) = err validation_error

unfoldable pub text_keys : Fields → Result BodyError (List String)
text_keys no_fields = ok []
text_keys (field (name_key k) v fs) = text_keys fs >>= λ rest. ok (k ∷ rest)
text_keys (field (other_key type_name shown) v fs) = err validation_error

-- `tuple(text)`
unfoldable pub characters : String → List String
characters String.[] = []
characters (String.◌∷◌ c s) = String.◌∷◌ c "" ∷ characters s

-- `tuple(payload.get(name, ()))` for a field declared `tuple[str, ...]`.
unfoldable pub text_tuple : Option Value → Result BodyError (List String)
unfolding text_items text_keys characters
text_tuple none = ok []
text_tuple (some (list_value xs)) = text_items xs
text_tuple (some (tuple_value xs)) = text_items xs
text_tuple (some (dict_value fs)) = text_keys fs
text_tuple (some (str_value s)) = ok (characters s)
text_tuple (some _) = err wrong_type
