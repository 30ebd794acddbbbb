-- ===== src/Validator/Types.antt =====
-- `_type_matches` and `_type_label` of validator.py: JSON Schema type names and their unions.
use congine.Json.{Value, str, list, Items, nil, cons, Floats}
use congine.Json.Builtins.{is_null, is_bool, is_int, is_number, is_str, is_list, is_dict, items}
use congine.Json.Text.{join}
use congine.Prelude.{
  String, Bool, true, false, ◌||◌, Option, none, some, map, ◌==◌, string_eq, if◌then◌else◌,
}

-- `_JSON_TYPE_MAP`, with `isinstance` of its entry; `none` where the map has no entry
unfoldable pub instance_test : {F : Type 0} → String → Option (Value F → Bool)
instance_test name =
    if name == "string"
    then some is_str
    else if name == "number"
    then some is_number
    else if name == "integer"
    then some is_int
    else if name == "boolean"
    then some is_bool
    else if name == "object"
    then some is_dict
    else if name == "array"
    then some is_list
    else if name == "null"
    then some is_null
    else none

module _ {F : Type 0} where
  -- `_type_matches` for a single name
  unfoldable pub name_matches : Value F → String → Bool
  unfolding instance_test
  name_matches value name = elim (instance_test {F = F} name) [
    | none ↦ true
    | some test ↦
        if name == "number" || name == "integer"
        then if is_bool value then false else test value
        else if name == "boolean"
        then is_bool value
        else test value
  ]

  -- `_type_matches`: an empty union, an unknown name and what is no name match everything.
  unfoldable mutual
    pub type_matches : Value F → Value F → Bool
    type_matches value (str name) = name_matches value name
    type_matches value (list nil) = true
    type_matches value (list (cons x xs)) = type_matches value x || any_matches value xs
    type_matches value _ = true

    pub any_matches : Value F → Items F → Bool
    any_matches value nil = false
    any_matches value (cons x xs) = type_matches value x || any_matches value xs

-- `_type_label`
unfoldable pub type_label : {F : Type 0} → Floats F → Value F → String
type_label fl (list xs) = join "|" (map fl.str_of (items xs))
type_label fl json_type = fl.str_of json_type
