-- ===== src/Admission/Coverage.antt =====
-- The checks of contract_admission.py that ask whether an evaluator executes a clause:
-- `_check_unsupported_keywords`, `_check_exclusive_bounds`, `_check_formats`, and the patterns
-- anywhere in the contract, `_check_nested_patterns`.
use congine.Admission.Grammar.{Finding, found, unsupported_keyword, check_regex_value}
use congine.Admission.Walk.{concat_map, subschemas}
use congine.Json.{Value, str, dict, null, Fields, end, field, Re2, get}
use congine.Json.Text.{split, starts_with}
use congine.Prelude.{
  String, Option, none, some, List, [], ◌∷◌, ◌++◌, ◌⧺◌, ◌==◌, string_eq, contains, if◌then◌else◌,
}
use congine.Vocabulary.{
  SemanticCapability, enforces_exclusive_bound, enforces_format, find_unenforced_keywords,
  ignorable_metadata_keywords,
}

-- `_EXCLUSIVE_BOUNDS`
abbrev pub exclusive_bounds : List String
exclusive_bounds = "exclusiveMinimum" ∷ "exclusiveMaximum" ∷ []

abbrev pub last_of : String → List String → String
last_of s [] = s
last_of s (p ∷ ps) = last_of p ps

-- `path.rsplit(".", 1)[-1]`
unfoldable pub last_segment : String → String
last_segment path = last_of "" (split b'.' path)

-- the body of `_check_unsupported_keywords` for one reported path
unfoldable pub check_reported : List String → String → List Finding
unfolding last_segment
check_reported enforced_keywords path =
    let keyword = last_segment path in
    if starts_with path "..."
    then []
    else if keyword == "type"
    then []
    else if contains keyword exclusive_bounds
    then []
    else if contains keyword ignorable_metadata_keywords
    then []
    else if contains keyword enforced_keywords
    then []
    else found unsupported_keyword path

module _ {F : Type 0} where
  -- `_check_unsupported_keywords`
  unfoldable pub check_unsupported_keywords : List String → Fields F → List Finding
  unfolding find_unenforced_keywords check_reported
  check_unsupported_keywords enforced_keywords schema =
      concat_map (check_reported enforced_keywords) (find_unenforced_keywords schema)

  unfoldable pub check_exclusive : SemanticCapability → String → Fields F → String → List Finding
  check_exclusive c path node keyword = elim (get keyword node) [
    | none ↦ []
    | some value ↦
        if enforces_exclusive_bound c keyword value node
        then []
        else found unsupported_keyword ((path ⧺ ".") ⧺ keyword)
  ]

  -- `_check_exclusive_bounds`
  unfoldable pub check_exclusive_bounds : SemanticCapability → Fields F → List Finding
  unfolding check_exclusive subschemas
  check_exclusive_bounds c schema =
      concat_map (λ (path, node). concat_map (check_exclusive c path node) exclusive_bounds)
        (subschemas schema)

  unfoldable pub check_format : SemanticCapability → String → Option (Value F) → List Finding
  check_format c path (some (str name)) =
      if enforces_format c name then [] else found unsupported_keyword (path ⧺ ".format")
  check_format c path _ = []

  -- `_check_formats`
  unfoldable pub check_formats : SemanticCapability → Fields F → List Finding
  unfolding check_format subschemas
  check_formats c schema =
      concat_map (λ (path, node). check_format c path (get "format" node)) (subschemas schema)

  -- the keys of `patternProperties`
  unfoldable pub check_keys : Re2 → String → Fields F → List Finding
  check_keys re path end = []
  check_keys re path (field key v fs) =
      check_regex_value {F = F} re (((path ⧺ ".patternProperties[") ⧺ key) ⧺ "]") (str key)
      ++ check_keys re path fs

  abbrev pub check_pattern_keys : Re2 → String → Option (Value F) → List Finding
  check_pattern_keys re path (some (dict fs)) = check_keys re path fs
  check_pattern_keys re path _ = []

  abbrev pub check_own_pattern : Re2 → String → Option (Value F) → List Finding
  check_own_pattern re path none = []
  check_own_pattern re path (some null) = []
  check_own_pattern re path (some pattern) =
      if path == "<root>" then [] else check_regex_value re (path ⧺ ".pattern") pattern

  -- `_check_nested_patterns`
  unfoldable pub check_nested_patterns : Re2 → Fields F → List Finding
  unfolding check_keys subschemas
  check_nested_patterns re schema =
      concat_map
        (λ (path, node).
          check_own_pattern re path (get "pattern" node)
          ++ check_pattern_keys re path (get "patternProperties" node))
        (subschemas schema)
