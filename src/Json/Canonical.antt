-- ===== src/Json/Canonical.antt =====
-- src/padrino/core/engine/canonical_json.py: `_validate` and `canonical_dumps`. `json.dumps` is what
-- the call asks of it: sorted keys, no blanks, and texts escaped as with `ensure_ascii=False`.
use Prim.Native.Char.{code}
use Prim.Native.String.{compare as compare_text}
use Prim.Native.Nat.{Ordering}
use padrino.Base.{
  ℕ, suc, ◌/◌, ◌%◌, Bool, true, false, List, [], ◌∷◌, String, append_text, str, sort_by, ltb, ◌=ℕ=◌,
  if◌then◌else◌, Result, ok, err, ◌>>=◌,
}
use padrino.Game.{ℤ, pos, negsuc}
use padrino.Json.{
  Key, name_key, other_key, Value, none_value, bool_value, int_value, str_value, list_value,
  tuple_value, dict_value, other_value, Items, no_items, item, Fields, no_fields, field,
}

-- The `TypeError`s of `_validate`.
pub data TypeError : Type 0 where
  string_keys_required : (type_name : String) → TypeError
  unsupported_type : (type_name : String) → TypeError

unfoldable mutual
  pub validate : Value → Result TypeError (Unit {0})
  validate none_value = ok tt
  validate (bool_value b) = ok tt
  validate (int_value n) = ok tt
  validate (str_value s) = ok tt
  validate (list_value xs) = validate_items xs
  validate (tuple_value xs) = validate_items xs
  validate (dict_value fs) = validate_fields fs
  validate (other_value type_name) = err (unsupported_type type_name)

  pub validate_items : Items → Result TypeError (Unit {0})
  validate_items no_items = ok tt
  validate_items (item x xs) = validate x >>= λ _. validate_items xs

  pub validate_fields : Fields → Result TypeError (Unit {0})
  validate_fields no_fields = ok tt
  validate_fields (field (other_key type_name shown) v fs) = err (string_keys_required type_name)
  validate_fields (field (name_key k) v fs) = validate v >>= λ _. validate_fields fs

abbrev hex_digit : ℕ → String
hex_digit n =
    if ltb n 10
    then str n
    else if n =ℕ= 10
    then "a"
    else if n =ℕ= 11
    then "b"
    else if n =ℕ= 12
    then "c"
    else if n =ℕ= 13
    then "d"
    else if n =ℕ= 14
    then "e"
    else "f"

-- The escape of a character, by its code point.
unfoldable pub escape_code : ℕ → String → String
escape_code n c =
    if n =ℕ= 34
    then "\\\""
    else if n =ℕ= 92
    then "\\\\"
    else if n =ℕ= 10
    then "\\n"
    else if n =ℕ= 13
    then "\\r"
    else if n =ℕ= 9
    then "\\t"
    else if n =ℕ= 12
    then "\\f"
    else if n =ℕ= 8
    then "\\b"
    else if ltb n 32
    then append_text "\\u00" (append_text (hex_digit (n / 16)) (hex_digit (n % 16)))
    else c

unfoldable pub escape : String → String
unfolding escape_code
escape String.[] = ""
escape (String.◌∷◌ c s) = append_text (escape_code (code c) (String.◌∷◌ c "")) (escape s)

unfoldable pub quote : String → String
unfolding escape
quote s = append_text "\"" (append_text (escape s) "\"")

abbrev pub str_int : ℤ → String
str_int (pos n) = str n
str_int (negsuc n) = append_text "-" (str (suc n))

-- The order of keys, by code points.
-- `a <= b` of a comparison.
abbrev pub is_le : Ordering → Bool
is_le Ordering.gt = false
is_le _ = true

unfoldable pub text_le : String → String → Bool
text_le s t = is_le (compare_text s t)

unfoldable pub key_le : String × String → String × String → Bool
unfolding text_le
key_le a b = text_le (a.0) (b.0)

abbrev pub key_text : Key → String
key_text (name_key k) = k
key_text (other_key type_name shown) = shown

-- `"key":value` for each entry, separated by commas.
unfoldable pub join_entries : List (String × String) → String
unfolding quote
join_entries [] = ""
join_entries ((k, v) ∷ []) = append_text (quote k) (append_text ":" v)
join_entries ((k, v) ∷ e ∷ es) =
    append_text (quote k)
      (append_text ":" (append_text v (append_text "," (join_entries (e ∷ es)))))

unfoldable pub join_items : List String → String
join_items [] = ""
join_items (v ∷ []) = v
join_items (v ∷ w ∷ ws) = append_text v (append_text "," (join_items (w ∷ ws)))

-- `json.dumps(obj, ensure_ascii=False, sort_keys=True, separators=(",", ":"), allow_nan=False)`.
unfoldable mutual
  unfolding quote key_le join_entries join_items

  pub dumps : Value → String
  dumps none_value = "null"
  dumps (bool_value true) = "true"
  dumps (bool_value false) = "false"
  dumps (int_value n) = str_int n
  dumps (str_value s) = quote s
  dumps (list_value xs) = append_text "[" (append_text (join_items (dumps_items xs)) "]")
  dumps (tuple_value xs) = append_text "[" (append_text (join_items (dumps_items xs)) "]")
  dumps (dict_value fs) =
      append_text "{" (append_text (join_entries (sort_by key_le (dumps_fields fs))) "}")
  dumps (other_value type_name) = ""

  pub dumps_items : Items → List String
  dumps_items no_items = []
  dumps_items (item x xs) = dumps x ∷ dumps_items xs

  pub dumps_fields : Fields → List (String × String)
  dumps_fields no_fields = []
  dumps_fields (field k v fs) = (key_text k, dumps v) ∷ dumps_fields fs

unfoldable pub canonical_dumps : Value → Result TypeError String
unfolding validate dumps
canonical_dumps obj = validate obj >>= λ _. ok (dumps obj)
