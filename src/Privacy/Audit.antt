-- ===== src/Privacy/Audit.antt =====
-- The offline audit against the guard that raises.
use padrino.Base.{
  ℕ, suc, ◌≡◌, refl, sym, ap, ◌∙◌, Bool, true, false, ◌&&◌, ◌||◌, Option, List, [], ◌∷◌, ◌++◌,
  String, is_empty, if◌then◌else◌, Result, err, ◌>>=◌, is_ok, is_ok->>=, arith,
}
use padrino.Json.{
  none_value, bool_value, int_value, str_value, list_value, tuple_value, dict_value, other_value,
  Value, Items, no_items, item, Fields, no_fields, field, key_in,
}
use padrino.Observations.{EventEntry, Observation}
use padrino.Privacy.{
  LeakFinding, PrivacyError, walk, walk_fields, walk_items, collect_payload, collect_fields,
  collect_items, sub_path, index_path, entry_path, check_tokens, collect_memory, check_entries,
  collect_entries, forbidden_memory_tokens, forbidden_payload_keys, is_foreign_game_ref,
  assert_ranked_observation_safe, audit_observation_log_for_seat,
}

is_empty-append : (xs ys : List LeakFinding) → is_empty (xs ++ ys) ≡ is_empty xs && is_empty ys
unfolding is_empty
is_empty-append [] ys = refl
is_empty-append (x ∷ xs) ys = refl

-- Two steps, the second after the first.
is_ok-then :
    (first second : Result PrivacyError (Unit {0}))
    → is_ok (first >>= λ _. second) ≡ is_ok first && is_ok second
is_ok-then first second = is_ok->>= first (λ _. second) (is_ok second) (λ _. refl)

-- What is collected is empty where what is checked passes, for two parts one after the other.
both_agree :
    (xs ys : List LeakFinding) (first second : Result PrivacyError (Unit {0}))
    → is_empty xs ≡ is_ok first
    → is_empty ys ≡ is_ok second
    → is_empty (xs ++ ys) ≡ is_ok (first >>= λ _. second)
both_agree xs ys first second h k =
    is_empty-append xs ys ∙ (λ i. h i && k i) ∙ sym (is_ok-then first second)

-- A finding for either reason stands where one of the two reasons raises.
finding-raised :
    (a b : Bool) (finding : LeakFinding) (rest : List LeakFinding) (e f : PrivacyError)
    (check : Result PrivacyError (Unit {0}))
    → is_empty rest ≡ is_ok check
    → is_empty (if a || b then finding ∷ rest else rest)
      ≡ is_ok (if a then err e else if b then err f else check)
unfolding is_empty
finding-raised true b finding rest e f check h = refl
finding-raised false true finding rest e f check h = refl
finding-raised false false finding rest e f check h = h

is_empty_three :
    (xs ys zs rest : List LeakFinding) (b : Bool)
    (first second third : Result PrivacyError (Unit {0}))
    → is_empty xs ≡ is_ok first
    → is_empty ys ≡ is_ok second
    → is_empty zs ≡ is_ok third
    → is_empty rest ≡ b
    → is_empty (xs ++ (ys ++ (zs ++ rest))) ≡ is_ok (first >>= λ _. second >>= λ _. third) && b
is_empty_three xs ys zs rest b first second third h k l r =
    is_empty-append xs (ys ++ (zs ++ rest))
    ∙ ap (λ c. is_empty xs && c)
        (is_empty-append ys (zs ++ rest) ∙ ap (λ c. is_empty ys && c) (is_empty-append zs rest))
    ∙ (λ i. h i && (k i && (l i && r i)))
    ∙ ground (arith, is_ok-then first (second >>= λ _. third), is_ok-then second third)

module _ (seat_id : String) (actor : Option String) (own : String) where
  mutual
    unfolding walk collect_payload is_empty

    collect_payload-walk :
        (v : Value) (path : String)
        → is_empty (collect_payload seat_id actor v own path) ≡ is_ok (walk v own path)
    collect_payload-walk none_value path = refl
    collect_payload-walk (bool_value b) path = refl
    collect_payload-walk (int_value n) path = refl
    collect_payload-walk (str_value s) path = refl
    collect_payload-walk (list_value xs) path = collect_items-walk xs path 0
    collect_payload-walk (tuple_value xs) path = collect_items-walk xs path 0
    collect_payload-walk (dict_value fs) path = collect_fields-walk fs path
    collect_payload-walk (other_value type_name) path = refl

    collect_fields-walk :
        (fs : Fields) (path : String)
        → is_empty (collect_fields seat_id actor fs own path) ≡ is_ok (walk_fields fs own path)
    collect_fields-walk no_fields path = refl
    collect_fields-walk (field key v fs) path =
        finding-raised (key_in key forbidden_payload_keys) (is_foreign_game_ref key v own) _ _ _ _ _
          (both_agree _ _ (walk v own (sub_path path key)) (walk_fields fs own path)
            (collect_payload-walk v (sub_path path key)) (collect_fields-walk fs path))

    collect_items-walk :
        (xs : Items) (path : String) (i : ℕ)
        → is_empty (collect_items seat_id actor xs own path i) ≡ is_ok (walk_items xs own path i)
    collect_items-walk no_items path i = refl
    collect_items-walk (item v xs) path i =
        both_agree _ _ (walk v own (index_path path i)) (walk_items xs own path (suc i))
          (collect_payload-walk v (index_path path i)) (collect_items-walk xs path (suc i))

module _ (lower : String → String) where
  collect_entries-check_entries :
      (own side seat_id : String) (entries : List EventEntry)
      → is_empty (collect_entries lower own side seat_id entries)
        ≡ is_ok (check_entries lower own side entries)
  unfolding collect_entries check_entries is_empty
  collect_entries-check_entries own side seat_id [] = refl
  collect_entries-check_entries own side seat_id (e ∷ entries) =
      both_agree _ _ (walk (dict_value e.payload) own (entry_path side e))
        (check_entries lower own side entries)
        (collect_payload-walk seat_id e.actor_player_id own (dict_value e.payload)
          (entry_path side e))
        (collect_entries-check_entries own side seat_id entries)

  collect_memory-check_tokens :
      (tokens : List String) (lowered seat_id : String)
      → is_empty (collect_memory lower tokens lowered seat_id)
        ≡ is_ok (check_tokens lower tokens lowered)
  unfolding collect_memory check_tokens is_empty
  collect_memory-check_tokens [] lowered seat_id = refl
  collect_memory-check_tokens (t ∷ tokens) lowered seat_id =
      ground (arith, collect_memory-check_tokens tokens lowered seat_id)

  -- Whether the guard lets every observation pass.
  unfoldable pub all_safe : List Observation → Bool
  all_safe [] = true
  all_safe (obs ∷ observations) =
      is_ok (assert_ranked_observation_safe lower obs) && all_safe observations

  -- The audit of a seat's observations finds nothing exactly where the ranked guard raises on none of
  -- them.
  pub audit_observation_log_for_seat-all_safe :
      (observations : List Observation) (seat_id : String)
      → is_empty (audit_observation_log_for_seat lower observations seat_id) ≡ all_safe observations
  unfolding audit_observation_log_for_seat assert_ranked_observation_safe all_safe is_empty
  audit_observation_log_for_seat-all_safe [] seat_id = refl
  audit_observation_log_for_seat-all_safe (obs ∷ observations) seat_id =
      let own = obs.game_public_id in
      let lowered = lower obs.your_private_memory in
      is_empty_three (collect_entries lower own "public_events" seat_id obs.public_events)
        (collect_entries lower own "private_events" seat_id obs.private_events)
        (collect_memory lower forbidden_memory_tokens lowered seat_id)
        (audit_observation_log_for_seat lower observations seat_id) (all_safe observations)
        (check_entries lower own "public_events" obs.public_events)
        (check_entries lower own "private_events" obs.private_events)
        (check_tokens lower forbidden_memory_tokens lowered)
        (collect_entries-check_entries own "public_events" seat_id obs.public_events)
        (collect_entries-check_entries own "private_events" seat_id obs.private_events)
        (collect_memory-check_tokens forbidden_memory_tokens lowered seat_id)
        (audit_observation_log_for_seat-all_safe observations seat_id)
