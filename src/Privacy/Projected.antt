-- ===== src/Privacy/Projected.antt =====
-- What `project_events_for_spectator_mode` and `project_row_through_allowlist` return.
use mathlib.Core.Path.{subst}
use padrino.Base.{
  ◌≡◌, refl, sym, ap, ◌∙◌, inl, inr, Bool, true, false, none, some, List, [], ◌∷◌, String, All,
  ◌==◌, string_eq, mem, diff, filter, String-discrete, ◌⊎◌, Option-cases, Bool-cases, if◌then◌else◌,
  ok, first_step, ok-injective, arith,
}
use padrino.Json.{
  Key, name_key, other_key, Value, none_value, bool_value, int_value, str_value, list_value,
  tuple_value, dict_value, other_value, Fields, no_fields, field, key_in,
}
use padrino.Observations.{field_of}
use padrino.Privacy.{forbidden_payload_keys}
use padrino.Privacy.Spectator.{
  IdentityMode, is_anonymous, assert_without, assert_anonymous_safe, only,
  project_row_through_allowlist, spectator_transparent_forbidden_payload_keys, strip_forbidden,
  with_field, payload_or_empty, dict_or_empty, visibility_text, project_stripped,
  project_event_for_spectator_mode, project_events_for_spectator_mode,
}
use padrino.Privacy.Stripped.{assert_without-strip_forbidden, assert_without-fewer}

field_of-with_field :
    (name : String) (v : Value) (fs : Fields) → field_of name (with_field name v fs) ≡ some v
unfolding field_of with_field
field_of-with_field name v no_fields = ground arith
field_of-with_field name v (field (other_key type_name shown) w fs) = field_of-with_field name v fs
field_of-with_field name v (field (name_key k) w fs) = ground (arith, field_of-with_field name v fs)

field_of-with_field_other :
    (name other : String) (v : Value) (fs : Fields)
    → (name == other) ≡ false
    → field_of other (with_field name v fs) ≡ field_of other fs
unfolding field_of with_field
field_of-with_field_other name other v no_fields h = ground arith
field_of-with_field_other name other v (field (other_key type_name shown) w fs) h =
    field_of-with_field_other name other v fs h
field_of-with_field_other name other v (field (name_key k) w fs) h =
    ground (arith, field_of-with_field_other name other v fs h)

dict_or_empty-clean :
    (keys : List String) (v : Value)
    → assert_without keys v ≡ ok tt
    → assert_without keys (dict_or_empty v) ≡ ok tt
unfolding assert_without
dict_or_empty-clean keys (dict_value fs) h = h
dict_or_empty-clean keys none_value h = refl
dict_or_empty-clean keys (bool_value b) h = refl
dict_or_empty-clean keys (int_value n) h = refl
dict_or_empty-clean keys (str_value s) h = refl
dict_or_empty-clean keys (list_value xs) h = refl
dict_or_empty-clean keys (tuple_value xs) h = refl
dict_or_empty-clean keys (other_value type_name) h = refl

-- The keys that the guards below look for in a game of either mode.
abbrev pub hidden_keys : Bool → List String
hidden_keys true = forbidden_payload_keys
hidden_keys false = "role" ∷ "faction" ∷ []

transparent_keys :
    spectator_transparent_forbidden_payload_keys
    ≡ "rating" ∷ "ratings" ∷ "win_rate" ∷ "win_rates" ∷ "elo" ∷ "openskill_mu" ∷ "openskill_sigma"
      ∷ "mu" ∷ "sigma" ∷ "role" ∷ "faction" ∷ []
unfolding spectator_transparent_forbidden_payload_keys mem diff filter String-discrete
transparent_keys = refl

within_transparent :
    (k : Key)
    → key_in k spectator_transparent_forbidden_payload_keys ≡ false
    → key_in k (hidden_keys false) ≡ false
unfolding mem
within_transparent (other_key type_name shown) h = refl
within_transparent (name_key k) h =
    let listed = ap (mem k) (sym transparent_keys) ∙ h in ground (arith, listed)

payload_is_no_visibility : ◌==◌ {A = String} "payload" "visibility" ≡ false
unfolding String-discrete
payload_is_no_visibility = refl

module _ (strip upper : String → String) (str_of : Value → String) where
  -- A PUBLIC event whose payload the guard by the keys lets pass.
  abbrev pub IsClean : List String → Fields → Type 0
  IsClean keys event =
      ((upper (visibility_text strip upper str_of (field_of "visibility" event)) == "PUBLIC")
        ≡ true)
      × ((payload : Value) × (field_of "payload" event ≡ some payload)
          × (assert_without keys payload ≡ ok tt))

  project_stripped-IsClean :
      (keys : List String) (event e : Fields)
      → project_stripped strip upper str_of keys event ≡ some e
      → IsClean keys e
  unfolding project_stripped
  project_stripped-IsClean keys event e h =
      let payload =
        dict_or_empty (strip_forbidden keys (payload_or_empty (field_of "payload" event))) in
      elim (Bool-cases
        (upper (visibility_text strip upper str_of (field_of "visibility" event)) == "PUBLIC")) [
          | inr dropped ↦ let no : none ≡ some e = ground (arith, dropped, h) in cc
          | inl shown ↦
              let same : with_field "payload" payload event ≡ e = ground (arith, shown, h) in
              subst (IsClean keys) same (
                rw
                    (field_of-with_field_other "payload" "visibility" payload event
                      payload_is_no_visibility)
                    shown,
                (
                  payload,
                  field_of-with_field "payload" payload event,
                  dict_or_empty-clean keys _ (assert_without-strip_forbidden keys _),
                ),
              )
        ]

  mode_keys-IsClean :
      (anonymous : Bool) (event e : Fields)
      → project_stripped strip upper str_of
          (if anonymous
            then forbidden_payload_keys
            else spectator_transparent_forbidden_payload_keys)
          event
        ≡ some e
      → IsClean (hidden_keys anonymous) e
  mode_keys-IsClean true event e h = project_stripped-IsClean forbidden_payload_keys event e h
  mode_keys-IsClean false event e h =
      let (shown, (payload, given, clean)) =
        project_stripped-IsClean spectator_transparent_forbidden_payload_keys event e h in
      (
        shown,
        (
          payload,
          given,
          assert_without-fewer _ (hidden_keys false) within_transparent payload clean,
        ),
      )

  -- Every event that `project_events_for_spectator_mode` returns is PUBLIC, and its payload has no key
  -- at any depth that a spectator may not see: none of the forbidden payload keys in an anonymous game,
  -- and no role or faction in a transparent one.
  pub project_events_for_spectator_mode-IsClean :
      (identity_mode : IdentityMode) (events : List Fields)
      → All
          (IsClean (hidden_keys (is_anonymous strip upper identity_mode)))
          (project_events_for_spectator_mode strip upper str_of identity_mode events)
  unfolding project_events_for_spectator_mode project_event_for_spectator_mode
  project_events_for_spectator_mode-IsClean identity_mode [] = tt
  project_events_for_spectator_mode-IsClean identity_mode (event ∷ events) =
      let rest = project_events_for_spectator_mode-IsClean identity_mode events in
      let clean = mode_keys-IsClean (is_anonymous strip upper identity_mode) event in
      elim (Option-cases
        (project_event_for_spectator_mode strip upper str_of identity_mode event)) [
          | inl dropped ↦ rw dropped rest
          | inr (e, kept) ↦ rw kept (clean e kept, rest)
        ]

field_of-only :
    (name : String) (allowlist : List String) (fs : Fields)
    → field_of name (only allowlist fs) ≡ (if mem name allowlist then field_of name fs else none)
unfolding field_of only
field_of-only name allowlist no_fields = ground arith
field_of-only name allowlist (field (other_key type_name shown) v fs) =
    field_of-only name allowlist fs
field_of-only name allowlist (field (name_key k) v fs) =
    ground (arith, field_of-only name allowlist fs)

module _ (strip upper : String → String) where
  -- A row that `project_row_through_allowlist` returns has the fields of the allowlist, as they were in
  -- the row, and no others; in an anonymous game none of them holds a forbidden payload key.
  pub project_row_through_allowlist-field_of :
      (row : Fields) (allowlist : List String) (identity_mode : IdentityMode) (projected : Fields)
      → project_row_through_allowlist strip upper row allowlist identity_mode ≡ ok projected
      → ((name : String)
          → field_of name projected ≡ (if mem name allowlist then field_of name row else none))
        × ((is_anonymous strip upper identity_mode ≡ false)
            ⊎ (assert_anonymous_safe (dict_value projected) ≡ ok tt))
  unfolding project_row_through_allowlist
  project_row_through_allowlist-field_of row allowlist identity_mode projected h =
      elim (Bool-cases (is_anonymous strip upper identity_mode)) [
        | inr e ↦
            let same = ok-injective (rw e at h) in
            ((λ name. ap (field_of name) (sym same) ∙ field_of-only name allowlist row), inl e)
        | inl e ↦
            let (_, safe, returned) =
              first_step _ (assert_anonymous_safe (dict_value (only allowlist row))) projected
                (rw e at h) in
            let same = ok-injective returned in
            (
              (λ name. ap (field_of name) (sym same) ∙ field_of-only name allowlist row),
              inr (ap (λ fs. assert_anonymous_safe (dict_value fs)) (sym same) ∙ safe),
            )
      ]
