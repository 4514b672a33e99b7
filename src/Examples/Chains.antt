-- ===== src/Examples/Chains.antt =====
-- A log of two events, sealed with a stand-in for the digest that has its length.
use Prim.Native.Char.{code}
use Prim.Native.String.{count}
use text.Mathlib.TextEquality.{eq_iff}
use padrino.Base.{
  sort_by, ◌≡◌, ◌≢◌, ◌⊎◌, true, false, str, refl, inl, inr, ok, List, [], ◌∷◌, map, String,
  String-discrete, mem, ◌=ℕ=◌, if◌then◌else◌, Bool-cases,
}
use padrino.Game.{pos}
use padrino.Json.{name_key, Value, int_value, str_value, dict_value, Fields, no_fields, field}
use padrino.Json.Canonical.{canonical_dumps}
use padrino.Json.Reorder.{same_dict, swap, canonical_dumps-Same}
use padrino.Chain.{StoredEvent, genesis_hash, append, from_stored, replay_event_log, head_hash}
use padrino.Chain.Sealed.{from_stored-IsSealed}
use padrino.Chain.Replayed.{
  renumber, replay_event_log-from_stored, from_stored-append, replay_event_log-renumbered,
}
use padrino.Chain.Tamper.{content, Collision, head_hash-content}

abbrev ones : String
ones = "1111111111111111111111111111111111111111111111111111111111111111"

abbrev twos : String
twos = "2222222222222222222222222222222222222222222222222222222222222222"

-- By the first character, which is 0 for what follows the genesis hash.
unfoldable digest : String → String
digest String.[] = genesis_hash
digest (String.◌∷◌ c s) = if code c =ℕ= 48 then ones else twos

digest_length : (s : String) → count (digest s) ≡ 64
unfolding digest
digest_length String.[] = refl
digest_length (String.◌∷◌ c s) = elim (Bool-cases (code c =ℕ= 48)) [
  | inl e ↦ rw e refl
  | inr e ↦ rw e refl
]

abbrev created : String → Fields
created at =
    field (name_key "event_type") (str_value "GameCreated")
      (field (name_key "created_at") (str_value at) no_fields)

abbrev started : Fields
started = field (name_key "event_type") (str_value "PhaseStarted") no_fields

abbrev first_event : String → StoredEvent
first_event at = record {
  sequence = 0;
  prev_event_hash = genesis_hash;
  event_hash = ones;
  body = created at;
}

abbrev second_event : StoredEvent
second_event = record { sequence = 1; prev_event_hash = ones; event_hash = twos; body = started }

abbrev log_of : String → List StoredEvent
log_of at = first_event at ∷ second_event ∷ []

accepted_one : from_stored digest (first_event "noon" ∷ []) ≡ ok (first_event "noon" ∷ [])
unfolding from_stored canonical_dumps digest mem String-discrete sort_by
accepted_one = refl

accepted_two : from_stored digest (log_of "noon") ≡ ok (log_of "noon")
unfolding from_stored canonical_dumps digest mem String-discrete sort_by
accepted_two = refl

accepted_later : from_stored digest (log_of "midnight") ≡ ok (log_of "midnight")
unfolding from_stored canonical_dumps digest mem String-discrete sort_by
accepted_later = refl

appended : append digest (first_event "noon" ∷ []) started ≡ ok (log_of "noon")
unfolding append canonical_dumps digest mem String-discrete sort_by
appended = refl

from_stored-append_example : from_stored digest (log_of "noon") ≡ ok (log_of "noon")
from_stored-append_example =
    from_stored-append digest (first_event "noon" ∷ []) (first_event "noon" ∷ []) (log_of "noon")
      started accepted_one appended

replay_event_log-from_stored_example : replay_event_log digest (log_of "noon") ≡ ok (log_of "noon")
replay_event_log-from_stored_example =
    replay_event_log-from_stored digest (log_of "noon") (log_of "noon") accepted_two

replayed : replay_event_log digest (log_of "noon") ≡ ok (log_of "noon")
replayed = replay_event_log-from_stored digest (log_of "noon") (log_of "noon") accepted_two

replay_event_log-renumbered_example :
    replay_event_log digest (map (renumber (λ e. 7)) (log_of "noon")) ≡ ok (log_of "noon")
replay_event_log-renumbered_example =
    replay_event_log-renumbered digest (λ e. 7) (log_of "noon") (log_of "noon") replayed

head_hash-content_example :
    (map content (log_of "noon") ≡ map content (log_of "midnight"))
    ⊎ Collision digest (log_of "noon") (log_of "midnight")
unfolding head_hash
head_hash-content_example =
    head_hash-content digest digest_length (log_of "noon") (log_of "midnight")
      (from_stored-IsSealed digest (log_of "noon") (log_of "noon") accepted_two).0
      (from_stored-IsSealed digest (log_of "midnight") (log_of "midnight") accepted_later).0 refl
      refl

abbrev b_first : Value
b_first =
    dict_value (
      field (name_key "b") (int_value (pos 1)) (field (name_key "a") (int_value (pos 2)) no_fields))

abbrev a_first : Value
a_first =
    dict_value (
      field (name_key "a") (int_value (pos 2)) (field (name_key "b") (int_value (pos 1)) no_fields))

names_differ : ◌≢◌ {A = String} "b" "a"
names_differ = λ e. let h : false ≡ true = (eq_iff "b" "a").1 e in cc

dumped : canonical_dumps b_first ≡ ok "{\"a\":2,\"b\":1}"
unfolding canonical_dumps sort_by str
dumped = refl

canonical_dumps-Same_example : canonical_dumps a_first ≡ ok "{\"a\":2,\"b\":1}"
canonical_dumps-Same_example =
    canonical_dumps-Same b_first a_first "{\"a\":2,\"b\":1}" (same_dict (swap names_differ)) dumped
