-- ===== src/Json/Reorder.antt =====
-- Values that differ in the order of their dictionaries' entries and in lists for tuples, and their
-- canonical texts.
use padrino.Base.{◌≡◌, refl, ap, ◌∙◌, ◌≢◌, List, String, append_text, sort_by, arith, ok, is_ok}
use padrino.Json.{
  Key, name_key, other_key, Value, list_value, tuple_value, dict_value, Items, no_items, item,
  Fields, field,
}
use padrino.Json.Canonical.{
  validate, validate_items, validate_fields, dumps, dumps_items, dumps_fields, canonical_dumps,
  key_le, join_items, join_entries,
}
use padrino.Json.Order.{insert_by_comm}

-- The second value is the first with entries of different names swapped, and lists for tuples, at
-- any depth.
mutual
  pub data Same : Value → Value → Type 0 where
    same : {v : Value} → Same v v
    same_list : {xs ys : Items} → SameItems xs ys → Same (list_value xs) (list_value ys)
    same_tuple : {xs ys : Items} → SameItems xs ys → Same (tuple_value xs) (tuple_value ys)
    list_tuple : {xs : Items} → Same (list_value xs) (tuple_value xs)
    tuple_list : {xs : Items} → Same (tuple_value xs) (list_value xs)
    same_dict : {fs gs : Fields} → SameFields fs gs → Same (dict_value fs) (dict_value gs)
    then_same : {u v w : Value} → Same u v → Same v w → Same u w

  pub data SameItems : Items → Items → Type 0 where
    same_nil : SameItems no_items no_items
    same_item :
        {v w : Value} {xs ys : Items}
        → Same v w
        → SameItems xs ys
        → SameItems (item v xs) (item w ys)

  pub data SameFields : Fields → Fields → Type 0 where
    same_fields : {fs : Fields} → SameFields fs fs
    same_field :
        {k : Key} {v w : Value} {fs gs : Fields}
        → Same v w
        → SameFields fs gs
        → SameFields (field k v fs) (field k w gs)
    swap :
        {k j : String} {v w : Value} {fs : Fields}
        → k ≢ j
        → SameFields
            (field (name_key k) v (field (name_key j) w fs))
            (field (name_key j) w (field (name_key k) v fs))
    then_fields : {fs gs hs : Fields} → SameFields fs gs → SameFields gs hs → SameFields fs hs

-- The sorted entries, which is what a dictionary prints.
sorted : Fields → List (String × String)
sorted fs = sort_by key_le (dumps_fields fs)

mutual
  unfolding dumps sort_by

  pub dumps-Same : (v w : Value) → Same v w → dumps v ≡ dumps w
  dumps-Same v w same = refl
  dumps-Same v w (same_list {xs = xs} {ys = ys} s) =
      ap (λ ts. append_text "[" (append_text (join_items ts) "]")) (dumps_items-Same xs ys s)
  dumps-Same v w (same_tuple {xs = xs} {ys = ys} s) =
      ap (λ ts. append_text "[" (append_text (join_items ts) "]")) (dumps_items-Same xs ys s)
  dumps-Same v w list_tuple = refl
  dumps-Same v w tuple_list = refl
  dumps-Same v w (same_dict {fs = fs} {gs = gs} s) =
      ap (λ es. append_text "{" (append_text (join_entries es) "}")) (sorted-Same fs gs s)
  dumps-Same v w (then_same {v = u} a b) = dumps-Same v u a ∙ dumps-Same u w b

  dumps_items-Same : (xs ys : Items) → SameItems xs ys → dumps_items xs ≡ dumps_items ys
  dumps_items-Same xs ys same_nil = refl
  dumps_items-Same xs ys (same_item {v = v} {w = w} {xs = vs} {ys = ws} s t) =
      cc (dumps-Same v w s, dumps_items-Same vs ws t)

  sorted-Same :
      (fs gs : Fields)
      → SameFields fs gs
      → sort_by key_le (dumps_fields fs) ≡ sort_by key_le (dumps_fields gs)
  sorted-Same fs gs same_fields = refl
  sorted-Same fs gs (same_field {k = k} {v = v} {w = w} {fs = hs} {gs = rest} s t) =
      cc (dumps-Same v w s, sorted-Same hs rest t)
  sorted-Same fs gs (swap {k = k} {j = j} {v = v} {w = w} {fs = hs} differ) =
      insert_by_comm (k, dumps v) (j, dumps w) (sort_by key_le (dumps_fields hs)) differ
  sorted-Same fs gs (then_fields {gs = hs} a b) = sorted-Same fs hs a ∙ sorted-Same hs gs b

mutual
  unfolding validate

  validate-Same : (v w : Value) → Same v w → is_ok (validate v) ≡ is_ok (validate w)
  validate-Same v w same = refl
  validate-Same v w (same_list {xs = xs} {ys = ys} s) = validate_items-Same xs ys s
  validate-Same v w (same_tuple {xs = xs} {ys = ys} s) = validate_items-Same xs ys s
  validate-Same v w list_tuple = refl
  validate-Same v w tuple_list = refl
  validate-Same v w (same_dict {fs = fs} {gs = gs} s) = validate_fields-Same fs gs s
  validate-Same v w (then_same {v = u} a b) = validate-Same v u a ∙ validate-Same u w b

  validate_items-Same :
      (xs ys : Items) → SameItems xs ys → is_ok (validate_items xs) ≡ is_ok (validate_items ys)
  validate_items-Same xs ys same_nil = refl
  validate_items-Same xs ys (same_item {v = v} {w = w} {xs = vs} {ys = ws} s t) =
      ground (arith, validate-Same v w s, validate_items-Same vs ws t)

  validate_fields-Same :
      (fs gs : Fields) → SameFields fs gs → is_ok (validate_fields fs) ≡ is_ok (validate_fields gs)
  validate_fields-Same fs gs same_fields = refl
  validate_fields-Same fs gs
        (same_field {k = name_key k} {v = v} {w = w} {fs = hs} {gs = rest} s t) =
      ground (arith, validate-Same v w s, validate_fields-Same hs rest t)
  validate_fields-Same fs gs
        (same_field {k = other_key a b} {v = v} {w = w} {fs = hs} {gs = rest} s t) =
      refl
  validate_fields-Same fs gs (swap {k = k} {j = j} {v = v} {w = w} {fs = hs} differ) = ground arith
  validate_fields-Same fs gs (then_fields {gs = hs} a b) =
      validate_fields-Same fs hs a ∙ validate_fields-Same hs gs b

-- Two values that differ only in the order of their dictionaries' entries and in tuples for lists
-- have one canonical text: where the first is dumped, the second is, as the same text.
pub canonical_dumps-Same :
    (v w : Value) (t : String) → Same v w → canonical_dumps v ≡ ok t → canonical_dumps w ≡ ok t
unfolding canonical_dumps
canonical_dumps-Same v w t s h = ground (arith, dumps-Same v w s, validate-Same v w s)
