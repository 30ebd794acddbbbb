-- ===== src/Validator.antt =====
-- libs/congine-sdk/src/congine_core/domain/validator.py: the rule engine's six rules. A rule is a
-- loop over names or over the entries of a mapping; `each` is that loop, and a `check_*` is its
-- body for one name or entry, which returns no breach where the source says `continue`.
pub mod Types
pub mod Local
pub mod Conforms
pub mod Sound
pub mod Enforced
mod Examples
use congine.Json.{
  Number, Value, null, num, str, list, dict, Items, nil, cons, Fields, end, field, Floats, Re2,
  Result, ok, raise, type_error, value_error, attribute_error, get, get_or, has, ◌>>=◌,
}
use congine.Json.Builtins.{is_null, truthy, less, greater, is_in, iterate, fields_of, len}
use congine.Json.Text.{split}
use congine.Models.{BreachDetail}
use congine.Prelude.{
  ℕ, String, Bool, true, false, not, Option, none, some, List, [], ◌∷◌, ◌++◌, ltb, count, ◌⧺◌,
  if◌then◌else◌,
}
use Types.{type_matches, type_label}

-- `MAX_PATTERN_LENGTH` and `MAX_REGEX_VALUE_LENGTH` of security_limits.py
abbrev pub max_pattern_length : ℕ
max_pattern_length = 1000

abbrev pub max_regex_value_length : ℕ
max_regex_value_length = 50000

abbrev pub breach : String → String → String → List BreachDetail
breach rule name message = record { rule = rule; field_name = name; message = message } ∷ []

-- A loop that collects what its body appends, and stops where the body raises.
unfoldable pub each {ℓ} :
    {A : Type ℓ} {B : Type 0} → (A → Result (List B)) → List A → Result (List B)
each body [] = ok []
each body (x ∷ xs) = do found ← body x; rest ← each body xs; ok (found ++ rest)

unfoldable pub each_field :
    {F B : Type 0} → (String → Value F → Result (List B)) → Fields F → Result (List B)
each_field body end = ok []
each_field body (field k v fs) = do found ← body k v; rest ← each_field body fs; ok (found ++ rest)

module _ {F : Type 0} where
  -- the loop of `_path_present`
  unfoldable pub walk : List String → Value F → Bool
  walk [] node = true
  walk (segment ∷ segments) (dict fs) = elim (get segment fs) [
    | none ↦ false
    | some v ↦ walk segments v
  ]
  walk (segment ∷ segments) _ = false

  -- `_path_present`
  unfoldable pub path_present : Fields F → String → Bool
  unfolding walk
  path_present payload dotted = walk (split b'.' dotted) (dict payload)

  -- `FIELD_PRESENCE`; `split` of a name that is no string raises.
  unfoldable pub check_presence : Fields F → Value F → Result (List BreachDetail)
  unfolding path_present
  check_presence payload (str name) = ok (
      if path_present payload name
      then []
      else breach "FIELD_PRESENCE" name (("Required field '" ⧺ name) ⧺ "' is missing"))
  check_presence payload _ = raise attribute_error

  unfoldable pub field_presence : Fields F → Value F → Result (List BreachDetail)
  unfolding check_presence iterate each
  field_presence payload required = do names ← iterate required; each (check_presence payload) names

  -- `NULL_GUARD`; a name that cannot be hashed raises, and one that is no string is never a key.
  unfoldable pub check_not_null : Fields F → Value F → Result (List BreachDetail)
  check_not_null payload (str name) = ok (elim (get name payload) [
    | none ↦ []
    | some v ↦
        if is_null v
        then breach "NULL_GUARD" name (("Field '" ⧺ name) ⧺ "' must not be null")
        else []
  ])
  check_not_null payload (list xs) = raise type_error
  check_not_null payload (dict fs) = raise type_error
  check_not_null payload _ = ok []

  unfoldable pub null_guard : Fields F → Value F → Result (List BreachDetail)
  unfolding check_not_null iterate each
  null_guard payload forbidden = do names ← iterate forbidden; each (check_not_null payload) names

  -- `spec.get(key, default) if isinstance(spec, dict) else spec`
  abbrev pub declared : String → Value F → Value F → Value F
  declared key default (dict spec) = get_or key default spec
  declared key default spec = spec

  -- `spec.get("min", spec.get("minimum")) if isinstance(spec, dict) else None`
  abbrev pub bound : String → String → Value F → Value F
  bound short long (dict spec) = get_or short (get_or long null spec) spec
  bound short long _ = null

module _ {F : Type 0} (fl : Floats F) where
  open fl use {str_of}

  -- the body of `TYPE_MATCH` for a declared type and a present value
  check_type_of : String → Value F → Value F → List BreachDetail
  check_type_of name json_type null = []
  check_type_of name json_type value =
      if type_matches value json_type
      then []
      else breach "TYPE_MATCH" name
          (((("Expected type '" ⧺ type_label fl json_type) ⧺ "' for field '") ⧺ name) ⧺ "'")

  -- `TYPE_MATCH`
  unfoldable pub check_type : Fields F → String → Value F → Result (List BreachDetail)
  unfolding check_type_of
  check_type payload name spec = elim (get name payload) [
    | none ↦ ok []
    | some value ↦
        let json_type = declared "type" null spec in
        ok (if truthy fl json_type then check_type_of name json_type value else [])
  ]

  unfoldable pub type_match : Fields F → Value F → Result (List BreachDetail)
  unfolding check_type each_field
  type_match payload properties = do fs ← fields_of properties; each_field (check_type payload) fs

  -- `ENUM_VALUES`
  unfoldable pub check_enum : Fields F → String → Value F → Result (List BreachDetail)
  check_enum payload name spec = elim (get name payload) [
    | none ↦ ok []
    | some value ↦ do
      allowed ← is_in fl value (declared "enum" (list nil) spec)
      ok (
          if allowed
          then []
          else breach "ENUM_VALUES" name
              (("Value for '" ⧺ name) ⧺ "' is not an allowed enum value"))
  ]

  unfoldable pub enum_values : Fields F → Value F → Result (List BreachDetail)
  unfolding check_enum each_field
  enum_values payload enum_map = do fs ← fields_of enum_map; each_field (check_enum payload) fs

  -- the two comparisons of `RANGE_CHECK`; the second is made only if the first finds nothing.
  range_above : String → Number F → Value F → Result (List BreachDetail)
  range_above name n null = ok []
  range_above name n maximum = do
    above ← greater fl n maximum
    ok (
        if above
        then breach "RANGE_CHECK" name
            ((("Value for '" ⧺ name) ⧺ "' is above maximum ") ⧺ str_of maximum)
        else [])

  range_of : String → Number F → Value F → Value F → Result (List BreachDetail)
  range_of name n null maximum = range_above name n maximum
  range_of name n minimum maximum = do
    below ← less fl n minimum
    (if below
        then ok (
            breach "RANGE_CHECK" name
              ((("Value for '" ⧺ name) ⧺ "' is below minimum ") ⧺ str_of minimum))
        else range_above name n maximum)

  range_value : String → Value F → Value F → Result (List BreachDetail)
  range_value name (num n) spec =
      range_of name n (bound "min" "minimum" spec) (bound "max" "maximum" spec)
  range_value name _ spec = ok []

  -- `RANGE_CHECK`
  unfoldable pub check_range : Fields F → String → Value F → Result (List BreachDetail)
  unfolding range_above range_of range_value
  check_range payload name spec = elim (get name payload) [
    | none ↦ ok []
    | some value ↦ range_value name value spec
  ]

  unfoldable pub range_check : Fields F → Value F → Result (List BreachDetail)
  unfolding check_range each_field
  range_check payload range_map = do fs ← fields_of range_map; each_field (check_range payload) fs

  module _ (re : Re2) where
    -- `_compiled_pattern(pattern).fullmatch(value)`, whose cache cannot hash a list or a dict; the
    -- rule catches `re2.error` only, and not the UnicodeEncodeError of a text that does not encode
    regex_match : String → String → Value F → Result (List BreachDetail)
    regex_match name value (str pattern) =
        if ltb max_regex_value_length (count value)
        then ok
            (breach "REGEX_PATTERN" name (("Value for '" ⧺ name) ⧺ "' is too long to match safely"))
        else if not (re.encodes pattern)
        then raise value_error
        else if not (re.compiles pattern)
        then ok (breach "REGEX_PATTERN" name (("Invalid regex pattern for '" ⧺ name) ⧺ "'"))
        else if not (re.encodes value)
        then raise value_error
        else if re.fullmatch pattern value
        then ok []
        else ok (breach "REGEX_PATTERN" name (("Value for '" ⧺ name) ⧺ "' does not match pattern"))
    regex_match name value _ =
        if ltb max_regex_value_length (count value)
        then ok
            (breach "REGEX_PATTERN" name (("Value for '" ⧺ name) ⧺ "' is too long to match safely"))
        else raise type_error

    regex_value : String → Value F → Value F → Result (List BreachDetail)
    regex_value name (str value) pattern = if not (truthy fl pattern) then ok [] else do
      n ← len pattern
      (if ltb max_pattern_length n
          then ok (
              breach "REGEX_PATTERN" name
                (("Pattern for '" ⧺ name) ⧺ "' exceeds the safe length budget"))
          else regex_match name value pattern)
    regex_value name _ pattern = ok []

    -- `REGEX_PATTERN`
    unfoldable pub check_pattern : Fields F → String → Value F → Result (List BreachDetail)
    unfolding regex_match regex_value len
    check_pattern payload name spec = elim (get name payload) [
      | none ↦ ok []
      | some value ↦ regex_value name value (declared "pattern" null spec)
    ]

    unfoldable pub regex_pattern : Fields F → Value F → Result (List BreachDetail)
    unfolding check_pattern each_field
    regex_pattern payload pattern_map = do
      fs ← fields_of pattern_map
      each_field (check_pattern payload) fs
