-- ===== src/Json.antt =====
-- Python values as the engine stores them: what `Any` ranges over in canonical_json.py,
-- observation_privacy.py and spectator_projection.py. An `other_value` is of any other type, given by
-- its name, and a key that is no text carries its type's name and how it prints.
pub mod Canonical
pub mod Order
pub mod Reorder
use padrino.Base.{Bool, true, false, String, mem, string_eq, List, [], ◌∷◌}
use padrino.Game.{ℤ}

pub data Key : Type 0 where
  name_key : String → Key
  other_key : (type_name shown : String) → Key

mutual
  pub data Value : Type 0 where
    none_value : Value
    bool_value : Bool → Value
    int_value : ℤ → Value
    str_value : String → Value
    list_value : Items → Value
    tuple_value : Items → Value
    dict_value : Fields → Value
    other_value : (type_name : String) → Value

  pub data Items : Type 0 where
    no_items : Items
    item : Value → Items → Items

  -- The entries of a dictionary, in its order.
  pub data Fields : Type 0 where
    no_fields : Fields
    field : Key → Value → Fields → Fields

-- `key in names`
abbrev pub key_in : Key → List String → Bool
key_in (name_key k) names = mem k names
key_in (other_key type_name shown) names = false
