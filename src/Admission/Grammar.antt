-- ===== src/Admission/Grammar.antt =====
-- The grammar checks of contract_admission.py: `_check_top_level_lists`, `_check_property` and the
-- checks of one declaration. A check appends issues of level ERROR; here it returns their findings.
use congine.Json.{Value, null, str, num, list, dict, Items, nil, cons, Fields, end, field, Re2, get}
use congine.Json.Builtins.{is_str}
use congine.Json.Text.{has_char}
use congine.Prelude.{
  ◌&&◌, String, Option, none, some, List, [], ◌∷◌, ◌++◌, ltb, count, ◌⧺◌, if◌then◌else◌,
}
use congine.Validator.{max_pattern_length}
use congine.Vocabulary.{type_is_enforceable}

-- `ContractAdmissionCode`
pub data Code : Type 0 where
  unknown_type empty_type_union invalid_pattern ambiguous_property_path : Code
  unsupported_keyword invalid_structure legacy_construct unsupported_reference : Code

-- An issue's code and path; its message is prose that no decision uses.
pub record Finding : Type 0 where
  pub code : Code
  pub path : String

abbrev pub found : Code → String → List Finding
found code path = record { code = code; path = path } ∷ []

module _ {F : Type 0} where
  -- the loop over the entries of a list of field names
  unfoldable pub check_entries : String → Items F → List Finding
  check_entries path nil = []
  check_entries path (cons entry rest) =
      (if is_str entry then [] else found invalid_structure path) ++ check_entries path rest

  unfoldable pub check_names : String → Option (Value F) → List Finding
  unfolding check_entries
  check_names path none = []
  check_names path (some null) = []
  check_names path (some (list entries)) = check_entries path entries
  check_names path (some _) = found invalid_structure path

  -- `_check_top_level_lists`
  unfoldable pub check_top_level_lists : Fields F → List Finding
  unfolding check_names
  check_top_level_lists schema =
      check_names "<root>.required" (get "required" schema)
      ++ check_names "<root>.null_forbidden" (get "null_forbidden" schema)

  -- `_check_type`
  unfoldable pub check_type : String → Value F → List Finding
  check_type name (list nil) = found empty_type_union (name ⧺ ".type")
  check_type name declared =
      if type_is_enforceable declared then [] else found unknown_type (name ⧺ ".type")

  -- `_check_enum`
  unfoldable pub check_enum : String → Value F → List Finding
  check_enum name (list xs) = []
  check_enum name _ = found invalid_structure (name ⧺ ".enum")

  -- the body of `_check_range` for one key
  unfoldable pub check_bound : String → String → Option (Value F) → List Finding
  check_bound name key none = []
  check_bound name key (some (num n)) = []
  check_bound name key (some _) = found invalid_structure ((name ⧺ ".") ⧺ key)

  -- `_check_range`
  unfoldable pub check_range : String → Fields F → List Finding
  unfolding check_bound
  check_range name spec =
      check_bound name "min" (get "min" spec)
      ++ (check_bound name "max" (get "max" spec)
          ++ (check_bound name "minimum" (get "minimum" spec)
              ++ check_bound name "maximum" (get "maximum" spec)))

  -- `if key in spec: check(spec[key])`
  abbrev pub if_present : (Value F → List Finding) → Option (Value F) → List Finding
  if_present check none = []
  if_present check (some v) = check v

  -- `_check_regex_value`, which finds what `_check_pattern` finds
  unfoldable pub check_regex_value : Re2 → String → Value F → List Finding
  check_regex_value re path (str pattern) =
      if ltb max_pattern_length (count pattern)
      then found invalid_pattern path
      else if re.encodes pattern && re.compiles pattern
      then []
      else found invalid_pattern path
  check_regex_value re path _ = found invalid_structure path

  -- `_check_pattern`
  unfoldable pub check_pattern : Re2 → String → Value F → List Finding
  unfolding check_regex_value
  check_pattern re name pattern = check_regex_value re (name ⧺ ".pattern") pattern

  unfoldable pub check_spec : Re2 → String → Value F → List Finding
  unfolding check_type check_pattern check_enum check_range
  check_spec re name (dict spec) =
      if_present (check_type name) (get "type" spec)
      ++ (if_present (check_pattern re name) (get "pattern" spec)
          ++ (if_present (check_enum name) (get "enum" spec) ++ check_range name spec))
  check_spec re name _ = found invalid_structure name

  -- `_check_property`
  unfoldable pub check_property : Re2 → String → Value F → List Finding
  unfolding check_spec
  check_property re name spec =
      if has_char b'.' name then found ambiguous_property_path name else check_spec re name spec

  unfoldable pub check_each : Re2 → Fields F → List Finding
  unfolding check_property
  check_each re end = []
  check_each re (field name spec rest) = check_property re name spec ++ check_each re rest

  -- what `admit_contract` does with `schema.get("properties")`
  unfoldable pub check_properties : Re2 → Option (Value F) → List Finding
  unfolding check_each
  check_properties re none = []
  check_properties re (some null) = []
  check_properties re (some (dict fs)) = check_each re fs
  check_properties re (some _) = found invalid_structure "<root>.properties"
