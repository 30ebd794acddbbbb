-- ===== src/Validator/Local.antt =====
-- `LocalValidator` and `CompositeValidator` of validator.py.
use congine.Json.{
  Value, list, dict, nil, Fields, end, field, Floats, Re2, Result, ok, get_or, has, ◌>>=◌,
}
use congine.Json.Builtins.{fields_of}
use congine.Models.{BreachDetail, ValidationResult, result_of, status_of, fail}
use congine.Prelude.{String, Bool, false, ◌||◌, List, [], ◌∷◌, ◌++◌, ◌==◌, string_eq, if◌then◌else◌}
use congine.Validator.{
  breach, field_presence, type_match, enum_values, range_check, null_guard, regex_pattern, each,
}

abbrev pub range_keys : List String
range_keys = "min" ∷ "max" ∷ "minimum" ∷ "maximum" ∷ []

abbrev pub Rule : Type 0 → Type 0
Rule F = Fields F → Value F → Result (List BreachDetail)

module _ {F : Type 0} where
  -- `isinstance(p, dict) and <one of the keys> in p`
  unfoldable pub declares : List String → Value F → Bool
  declares [] spec = false
  declares (key ∷ ks) (dict spec) = has key spec || declares ks (dict spec)
  declares (key ∷ ks) spec = false

  -- `{f: p for f, p in properties.items() if ...}`
  unfoldable pub keep : List String → Fields F → Fields F
  unfolding declares
  keep wanted end = end
  keep wanted (field k v fs) =
      let rest = keep wanted fs in if declares wanted v then field k v rest else rest

  kept : List String → Value F → Result (Value F)
  kept wanted properties = do fs ← fields_of properties; ok (dict (keep wanted fs))

  -- `_extract_params`
  unfoldable pub extract_params : String → Fields F → Result (Value F)
  unfolding kept keep
  extract_params rule schema =
      let properties = get_or "properties" (dict end) schema in
      if rule == "FIELD_PRESENCE"
      then ok (get_or "required" (list nil) schema)
      else if rule == "TYPE_MATCH"
      then ok properties
      else if rule == "ENUM_VALUES"
      then kept ("enum" ∷ []) properties
      else if rule == "RANGE_CHECK"
      then kept range_keys properties
      else if rule == "NULL_GUARD"
      then ok (get_or "null_forbidden" (list nil) schema)
      else if rule == "REGEX_PATTERN"
      then kept ("pattern" ∷ []) properties
      else ok (dict end)

  -- one turn of the loop of `validate`
  unfoldable pub apply_rule : Fields F → Fields F → String × Rule F → Result (List BreachDetail)
  unfolding extract_params
  apply_rule payload schema (name, rule) = do
    params ← extract_params name schema
    rule payload params

  -- `LocalValidator.validate` with the given rules
  unfoldable pub validate_with :
      List (String × Rule F) → Value F → Fields F → Result ValidationResult
  unfolding apply_rule each
  validate_with rules (dict payload) schema = do
    breaches ← each (apply_rule payload schema) rules
    ok (result_of (status_of breaches) breaches)
  validate_with rules payload schema =
      ok (result_of fail (breach "TYPE_MATCH" "<root>" "Payload must be an object/dict"))

module _ {F : Type 0} (fl : Floats F) (re : Re2) where
  -- the rules that `__init__` takes by default
  abbrev pub default_rules : List (String × Rule F)
  default_rules =
      ("FIELD_PRESENCE", field_presence)
      ∷ ("TYPE_MATCH", type_match fl)
      ∷ ("ENUM_VALUES", enum_values fl)
      ∷ ("RANGE_CHECK", range_check fl)
      ∷ ("NULL_GUARD", null_guard)
      ∷ ("REGEX_PATTERN", regex_pattern fl re)
      ∷ []

  -- `LocalValidator().validate`
  unfoldable pub validate : Value F → Fields F → Result ValidationResult
  unfolding validate_with
  validate = validate_with default_rules

-- `CompositeValidator.validate` of any two validators
unfoldable pub validate_both :
    {F : Type 0}
    → (Value F → Fields F → Result ValidationResult)
    → (Value F → Fields F → Result (List BreachDetail))
    → Value F
    → Fields F
    → Result ValidationResult
validate_both rule_validator semantic_validator payload schema = do
  rule_result ← rule_validator payload schema
  semantic ← semantic_validator payload schema
  let breaches = rule_result.breaches ++ semantic
  ok (record (result_of (status_of breaches) breaches) { degraded = rule_result.degraded })
