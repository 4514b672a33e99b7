-- ===== src/Chain.antt =====
-- src/padrino/core/engine/event_log.py and hashing.py, and `replay_event_log` of replay.py: the
-- hash-chained event log. `sha256_hex` is `hashlib.sha256(...).hexdigest()` of a text's UTF-8 bytes.
-- What `append` mutates is passed on as the new list of events.
pub mod Sealed
pub mod Replayed
pub mod Tamper
use padrino.Base.{
  ℕ, suc, Bool, true, false, List, [], ◌∷◌, ◌++◌, String, append_text, length, ◌==◌, ◌=ℕ=◌,
  string_eq, mem, not, if◌then◌else◌, Result, ok, err, ◌>>=◌,
}
use padrino.Json.{Value, dict_value, Fields, no_fields, field, key_in}
use padrino.Json.Canonical.{TypeError, canonical_dumps}

pub record StoredEvent : Type 0 where
  pub sequence : ℕ
  pub prev_event_hash : String
  pub event_hash : String
  pub body : Fields

-- What `append`, `from_stored` and `replay_event_log` raise.
pub data ChainError : Type 0 where
  body_type_error : TypeError → ChainError
  not_contiguous : (sequence expected_sequence : ℕ) → ChainError
  does_not_chain : (sequence : ℕ) → ChainError
  body_does_not_match : (sequence : ℕ) → ChainError
  replay_hash_mismatch : (sequence : ℕ) (expected actual : String) → ChainError

abbrev pub genesis_hash : String
genesis_hash = "0000000000000000000000000000000000000000000000000000000000000000"

abbrev pub excluded_keys : List String
excluded_keys = "event_hash" ∷ "prev_event_hash" ∷ "created_at" ∷ []

-- `{k: v for k, v in event_body.items() if k not in _EXCLUDED_KEYS}`
unfoldable pub filtered : Fields → Fields
filtered no_fields = no_fields
filtered (field k v fs) =
    let rest = filtered fs in if key_in k excluded_keys then rest else field k v rest

-- The last event's hash, or `previous` where there is none.
unfoldable pub last_hash : String → List StoredEvent → String
last_hash previous [] = previous
last_hash previous (e ∷ es) = last_hash e.event_hash es

unfoldable pub head_hash : List StoredEvent → String
unfolding last_hash
head_hash events = last_hash genesis_hash events

unfoldable pub raise_type_error {ℓ} : {A : Type ℓ} → Result TypeError A → Result ChainError A
raise_type_error (ok a) = ok a
raise_type_error (err e) = err (body_type_error e)

module _ (sha256_hex : String → String) where
  unfoldable pub compute_event_hash : String → Fields → Result ChainError String
  unfolding filtered raise_type_error
  compute_event_hash prev_event_hash event_body =
      raise_type_error (canonical_dumps (dict_value (filtered event_body))) >>= λ text.
      ok (sha256_hex (append_text prev_event_hash text))

  -- The sealed event of `append`.
  unfoldable pub seal : List StoredEvent → Fields → Result ChainError StoredEvent
  unfolding compute_event_hash head_hash
  seal events event_body = compute_event_hash (head_hash events) event_body >>= λ event_hash.
      ok (record {
        sequence = length events;
        prev_event_hash = head_hash events;
        event_hash = event_hash;
        body = event_body;
      })

  -- The log after `append`, with the event that it returns last.
  unfoldable pub append : List StoredEvent → Fields → Result ChainError (List StoredEvent)
  unfolding seal
  append events event_body = seal events event_body >>= λ stored. ok (events ++ stored ∷ [])

  -- The checks of `from_stored` on one stored event.
  unfoldable pub check_stored : ℕ → String → StoredEvent → Result ChainError (Unit {0})
  unfolding compute_event_hash
  check_stored expected_sequence previous_hash stored =
      if not (stored.sequence =ℕ= expected_sequence)
      then err (not_contiguous stored.sequence expected_sequence)
      else if not (stored.prev_event_hash == previous_hash)
      then err (does_not_chain stored.sequence)
      else (compute_event_hash previous_hash stored.body >>= λ recomputed.
          if recomputed == stored.event_hash
          then ok tt
          else err (body_does_not_match stored.sequence))

  -- The loop of `from_stored`, from the expected sequence number and the previous hash on.
  unfoldable pub from_stored_at :
      ℕ → String → List StoredEvent → Result ChainError (List StoredEvent)
  unfolding check_stored
  from_stored_at expected_sequence previous_hash [] = ok []
  from_stored_at expected_sequence previous_hash (stored ∷ rest) =
      check_stored expected_sequence previous_hash stored >>= λ _.
      from_stored_at (suc expected_sequence) stored.event_hash rest >>= λ copied.
      ok (stored ∷ copied)

  unfoldable pub from_stored : List StoredEvent → Result ChainError (List StoredEvent)
  unfolding from_stored_at
  from_stored stored_events = from_stored_at 0 genesis_hash stored_events

  -- The body of the loop of `replay_event_log`.
  unfoldable pub replay_stored :
      List StoredEvent → StoredEvent → Result ChainError (List StoredEvent)
  unfolding seal
  replay_stored log prior = seal log prior.body >>= λ replayed.
      if replayed.event_hash == prior.event_hash
      then ok (log ++ replayed ∷ [])
      else err (replay_hash_mismatch prior.sequence prior.event_hash replayed.event_hash)

  unfoldable pub replay_event_log_on :
      List StoredEvent → List StoredEvent → Result ChainError (List StoredEvent)
  unfolding replay_stored
  replay_event_log_on log [] = ok log
  replay_event_log_on log (prior ∷ rest) =
      replay_stored log prior >>= λ log'. replay_event_log_on log' rest

  unfoldable pub replay_event_log : List StoredEvent → Result ChainError (List StoredEvent)
  unfolding replay_event_log_on
  replay_event_log stored_events = replay_event_log_on [] stored_events
