-- ===== src/Privacy/Stripped.antt =====
-- What is left of an event for a spectator and of a row for a public page.
use padrino.Base.{◌≡◌, refl, inl, inr, false, List, String, string_eq, Bool-cases, ok, first_step}
use padrino.Json.{
  Key, Value, none_value, bool_value, int_value, str_value, list_value, tuple_value, dict_value,
  other_value, Items, no_items, item, Fields, no_fields, field, key_in,
}
use padrino.Privacy.Spectator.{
  assert_without, assert_fields_without, assert_items_without, strip_forbidden, strip_fields,
  strip_items,
}

module _ (keys : List String) where
  mutual
    unfolding assert_without strip_forbidden

    -- Nothing is left for the guard by the keys that were stripped.
    pub assert_without-strip_forbidden :
        (v : Value) → assert_without keys (strip_forbidden keys v) ≡ ok tt
    assert_without-strip_forbidden none_value = refl
    assert_without-strip_forbidden (bool_value b) = refl
    assert_without-strip_forbidden (int_value n) = refl
    assert_without-strip_forbidden (str_value s) = refl
    assert_without-strip_forbidden (list_value xs) = assert_items-strip_items xs
    assert_without-strip_forbidden (tuple_value xs) = assert_items-strip_items xs
    assert_without-strip_forbidden (dict_value fs) = assert_fields-strip_fields fs
    assert_without-strip_forbidden (other_value type_name) = refl

    assert_fields-strip_fields :
        (fs : Fields) → assert_fields_without keys (strip_fields keys fs) ≡ ok tt
    assert_fields-strip_fields no_fields = refl
    assert_fields-strip_fields (field k v fs) = elim (Bool-cases (key_in k keys)) [
      | inl e ↦ rw e (assert_fields-strip_fields fs)
      | inr e ↦ rw e (rw e (rw (assert_without-strip_forbidden v) (assert_fields-strip_fields fs)))
    ]

    assert_items-strip_items :
        (xs : Items) → assert_items_without keys (strip_items keys xs) ≡ ok tt
    assert_items-strip_items no_items = refl
    assert_items-strip_items (item v xs) =
        rw (assert_without-strip_forbidden v) (assert_items-strip_items xs)

-- A guard that passes for some keys passes for fewer.
module _ (keys fewer : List String)
    (within : (k : Key) → key_in k keys ≡ false → key_in k fewer ≡ false) where
  mutual
    unfolding assert_without

    pub assert_without-fewer :
        (v : Value) → assert_without keys v ≡ ok tt → assert_without fewer v ≡ ok tt
    assert_without-fewer none_value h = refl
    assert_without-fewer (bool_value b) h = refl
    assert_without-fewer (int_value n) h = refl
    assert_without-fewer (str_value s) h = refl
    assert_without-fewer (list_value xs) h = assert_items-fewer xs h
    assert_without-fewer (tuple_value xs) h = assert_items-fewer xs h
    assert_without-fewer (dict_value fs) h = assert_fields-fewer fs h
    assert_without-fewer (other_value type_name) h = refl

    assert_fields-fewer :
        (fs : Fields)
        → assert_fields_without keys fs ≡ ok tt
        → assert_fields_without fewer fs ≡ ok tt
    assert_fields-fewer no_fields h = refl
    assert_fields-fewer (field k v fs) h = elim (Bool-cases (key_in k keys)) [
      | inl e ↦ cc
      | inr e ↦
          let (_, inner, rest) =
            first_step (λ _. assert_fields_without keys fs) (assert_without keys v) tt
              (rw e at h) in
          rw (within k e) (rw (assert_without-fewer v inner) (assert_fields-fewer fs rest))
    ]

    assert_items-fewer :
        (xs : Items) → assert_items_without keys xs ≡ ok tt → assert_items_without fewer xs ≡ ok tt
    assert_items-fewer no_items h = refl
    assert_items-fewer (item v xs) h =
        let (_, inner, rest) =
          first_step (λ _. assert_items_without keys xs) (assert_without keys v) tt h in
        rw (assert_without-fewer v inner) (assert_items-fewer xs rest)
