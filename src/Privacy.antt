-- ===== src/Privacy.antt =====
-- src/padrino/core/observation_privacy.py: the guards on what may reach an observation or a public page.
-- `lower`, `upper` and `strip` are the methods of texts of those names. The sets of memory tokens is
-- gone through in the order in which it is written.
pub mod Audit
pub mod Spectator
pub mod Stripped
pub mod Projected
use Prim.Native.String.{count}
use padrino.Base.{
  ℕ, zero, suc, ◌≡◌, Bool, true, false, ◌&&◌, ◌||◌, not, Option, none, some, List, [], ◌∷◌, ◌++◌,
  String, append_text, str, length, ◌==◌, string_eq, mem, if◌then◌else◌, Result, ok, err, ◌>>=◌,
}
use padrino.Json.{
  Key, name_key, other_key, Value, none_value, bool_value, int_value, str_value, list_value,
  tuple_value, dict_value, other_value, Items, no_items, item, Fields, no_fields, field, key_in,
}
use padrino.Json.Canonical.{key_text}
use padrino.Observations.{EventEntry, Observation}

pub data PrivacyError : Type 0 where
  forbidden_field : (key path : String) → PrivacyError
  foreign_game : (key value path own_game_id : String) → PrivacyError
  forbidden_token : (token path : String) → PrivacyError
  anonymity_violation : (key : String) → PrivacyError

pub record LeakFinding : Type 0 where
  pub field_path : String
  pub leaked_value_redacted : String
  pub seat_observed_by : String
  pub seat_owning_the_leak : Option String

abbrev pub human_identity_keys : List String
human_identity_keys =
    "is_human" ∷ "controller_type" ∷ "seat_kind" ∷ "occupant_principal_id" ∷ "occupant_user_id"
    ∷ "human_player_id" ∷ "takeover" ∷ "taken_over_at_phase" ∷ "takeover_agent_build_id" ∷ []

abbrev pub forbidden_payload_keys : List String
forbidden_payload_keys =
    "agent_build_id" ∷ "model_id" ∷ "model_name" ∷ "provider" ∷ "provider_name" ∷ "rating"
    ∷ "ratings" ∷ "win_rate" ∷ "win_rates" ∷ "elo" ∷ "openskill_mu" ∷ "openskill_sigma" ∷ "mu"
    ∷ "sigma" ∷ "gauntlet_clone_index" ∷ "clone_index" ∷ "role" ∷ "faction" ∷ human_identity_keys

abbrev pub model_identity_keys : List String
model_identity_keys =
    "agent_build_id" ∷ "model_id" ∷ "model_name" ∷ "provider" ∷ "provider_name"
    ∷ "gauntlet_clone_index" ∷ "clone_index" ∷ []

abbrev pub identity_marker_keys : List String
identity_marker_keys = human_identity_keys ++ model_identity_keys

abbrev pub forbidden_memory_tokens : List String
forbidden_memory_tokens = "agent_build_id" ∷ "model_id" ∷ "gauntlet_clone_index" ∷ "openskill" ∷ []

abbrev pub game_id_keys : List String
game_id_keys = "game_id" ∷ "game_public_id" ∷ []

-- `key in GAME_ID_KEYS and isinstance(sub_value, str) and sub_value != own_game_id`
unfoldable pub is_foreign_game_ref : Key → Value → String → Bool
is_foreign_game_ref key (str_value s) own_game_id =
    key_in key game_id_keys && not (s == own_game_id)
is_foreign_game_ref key _ own_game_id = false

abbrev pub text_of : Value → String
text_of (str_value s) = s
text_of _ = ""

-- `f"{path}.{key}"` and `f"{path}[{index}]"`
abbrev pub sub_path : String → Key → String
sub_path path key = append_text path (append_text "." (key_text key))

unfoldable pub index_path : String → ℕ → String
unfolding str
index_path path index = append_text path (append_text "[" (append_text (str index) "]"))

unfoldable mutual
  unfolding is_foreign_game_ref index_path

  pub walk : Value → String → String → Result PrivacyError (Unit {0})
  walk (dict_value fs) own_game_id path = walk_fields fs own_game_id path
  walk (list_value xs) own_game_id path = walk_items xs own_game_id path 0
  walk (tuple_value xs) own_game_id path = walk_items xs own_game_id path 0
  walk _ own_game_id path = ok tt

  pub walk_fields : Fields → String → String → Result PrivacyError (Unit {0})
  walk_fields no_fields own_game_id path = ok tt
  walk_fields (field key v fs) own_game_id path =
      let inner = walk v own_game_id (sub_path path key) in
      let rest = walk_fields fs own_game_id path in
      if key_in key forbidden_payload_keys
      then err (forbidden_field (key_text key) (sub_path path key))
      else if is_foreign_game_ref key v own_game_id
      then err (foreign_game (key_text key) (text_of v) (sub_path path key) own_game_id)
      else (inner >>= λ _. rest)

  pub walk_items : Items → String → String → ℕ → Result PrivacyError (Unit {0})
  walk_items no_items own_game_id path index = ok tt
  walk_items (item v xs) own_game_id path index =
      walk v own_game_id (index_path path index) >>= λ _. walk_items xs own_game_id path (suc index)

-- `len` of the items and of the entries.
unfoldable pub items_length : Items → ℕ
items_length no_items = 0
items_length (item v xs) = suc (items_length xs)

unfoldable pub fields_length : Fields → ℕ
fields_length no_fields = 0
fields_length (field k v fs) = suc (fields_length fs)

abbrev pub sized : String → ℕ → String
sized type_name n =
    append_text "<" (append_text type_name (append_text ":len=" (append_text (str n) ">")))

-- An `other_value` here is no `bytes`, the one other type whose length is told.
unfoldable pub redact : Value → String
unfolding items_length fields_length str
redact none_value = "<NoneType>"
redact (bool_value b) = "<bool>"
redact (int_value n) = "<int>"
redact (str_value s) = sized "str" (count s)
redact (list_value xs) = sized "list" (items_length xs)
redact (tuple_value xs) = sized "tuple" (items_length xs)
redact (dict_value fs) = sized "dict" (fields_length fs)
redact (other_value type_name) = append_text "<" (append_text type_name ">")

module _ (seat_observed_by : String) (actor_player_id : Option String) where
  abbrev leak : String → Value → LeakFinding
  leak path v = record {
    field_path = path;
    leaked_value_redacted = redact v;
    seat_observed_by = seat_observed_by;
    seat_owning_the_leak = actor_player_id;
  }

  unfoldable mutual
    unfolding is_foreign_game_ref index_path redact

    pub collect_payload : Value → String → String → List LeakFinding
    collect_payload (dict_value fs) own_game_id path = collect_fields fs own_game_id path
    collect_payload (list_value xs) own_game_id path = collect_items xs own_game_id path 0
    collect_payload (tuple_value xs) own_game_id path = collect_items xs own_game_id path 0
    collect_payload _ own_game_id path = []

    pub collect_fields : Fields → String → String → List LeakFinding
    collect_fields no_fields own_game_id path = []
    collect_fields (field key v fs) own_game_id path =
        let rest =
          collect_payload v own_game_id (sub_path path key) ++ collect_fields fs own_game_id path in
        if key_in key forbidden_payload_keys || is_foreign_game_ref key v own_game_id
        then leak (sub_path path key) v ∷ rest
        else rest

    pub collect_items : Items → String → String → ℕ → List LeakFinding
    collect_items no_items own_game_id path index = []
    collect_items (item v xs) own_game_id path index =
        collect_payload v own_game_id (index_path path index)
        ++ collect_items xs own_game_id path (suc index)

-- `token in text`
unfoldable pub is_prefix : String → String → Bool
is_prefix String.[] text = true
is_prefix (String.◌∷◌ c token) String.[] = false
is_prefix (String.◌∷◌ c token) (String.◌∷◌ d text) =
    let rest = is_prefix token text in String.◌∷◌ c "" == String.◌∷◌ d "" && rest

unfoldable pub contains : String → String → Bool
unfolding is_prefix
contains token String.[] = is_prefix token ""
contains token (String.◌∷◌ d text) = is_prefix token (String.◌∷◌ d text) || contains token text

-- The paths of the entries of one side of an observation.
abbrev pub entry_path : String → EventEntry → String
entry_path side entry =
    append_text side (append_text "[seq=" (append_text (str entry.sequence) "].payload"))

abbrev pub memory_path : String
memory_path = "your_private_memory"

module _ (lower : String → String) where
  -- The loop of `_check_text`, on the lowered text.
  unfoldable pub check_tokens : List String → String → Result PrivacyError (Unit {0})
  unfolding contains
  check_tokens [] lowered = ok tt
  check_tokens (token ∷ tokens) lowered =
      let rest = check_tokens tokens lowered in
      if contains token lowered then err (forbidden_token token memory_path) else rest

  unfoldable pub check_entries : String → String → List EventEntry → Result PrivacyError (Unit {0})
  unfolding walk str
  check_entries own_game_id side [] = ok tt
  check_entries own_game_id side (entry ∷ entries) =
      walk (dict_value entry.payload) own_game_id (entry_path side entry) >>= λ _.
      check_entries own_game_id side entries

  unfoldable pub assert_ranked_observation_safe : Observation → Result PrivacyError (Unit {0})
  unfolding check_entries check_tokens
  assert_ranked_observation_safe obs =
      check_entries obs.game_public_id "public_events" obs.public_events >>= λ _.
      check_entries obs.game_public_id "private_events" obs.private_events >>= λ _.
      check_tokens forbidden_memory_tokens (lower obs.your_private_memory)

  unfoldable pub collect_memory : List String → String → String → List LeakFinding
  unfolding contains
  collect_memory [] lowered seat_id = []
  collect_memory (token ∷ tokens) lowered seat_id =
      let rest = collect_memory tokens lowered seat_id in
      if contains token lowered
      then record {
        field_path = memory_path;
        leaked_value_redacted = append_text "<str:contains:" (append_text token ">");
        seat_observed_by = seat_id;
        seat_owning_the_leak = none;
      }
        ∷ rest
      else rest

  unfoldable pub collect_entries : String → String → String → List EventEntry → List LeakFinding
  unfolding collect_payload str
  collect_entries own_game_id side seat_id [] = []
  collect_entries own_game_id side seat_id (entry ∷ entries) =
      collect_payload seat_id entry.actor_player_id (dict_value entry.payload) own_game_id
        (entry_path side entry)
      ++ collect_entries own_game_id side seat_id entries

  unfoldable pub audit_observation_log_for_seat : List Observation → String → List LeakFinding
  unfolding collect_entries collect_memory
  audit_observation_log_for_seat [] seat_id = []
  audit_observation_log_for_seat (obs ∷ observations) seat_id =
      collect_entries obs.game_public_id "public_events" seat_id obs.public_events
      ++ (collect_entries obs.game_public_id "private_events" seat_id obs.private_events
          ++ (collect_memory forbidden_memory_tokens (lower obs.your_private_memory) seat_id
              ++ audit_observation_log_for_seat observations seat_id))
