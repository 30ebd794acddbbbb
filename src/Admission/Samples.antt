-- ===== src/Admission/Samples.antt =====
-- What the tests of admission share: the list of what they unfold, and a contract with a misspelt type.
use congine.Admission.{admit_contract, findings, legacy_advisories, verdict, effective_capability}
use congine.Admission.Coverage.{
  check_reported, check_unsupported_keywords, check_exclusive, check_exclusive_bounds, check_format,
  check_formats, check_keys, check_nested_patterns, last_segment,
}
use congine.Admission.Grammar.{
  check_entries, check_names, check_top_level_lists, check_type, check_enum, check_bound,
  check_range, check_regex_value, check_pattern, check_spec, check_property, check_each,
  check_properties,
}
use congine.Admission.References.{
  check_references, resolve_pointer, reference_cycle, reference_cycle_from, descend_all, descend,
  unescape_pointer_token, replace_pair, size,
}
use congine.Admission.Walk.{subschemas, walk_subschemas, children_of, over, indexed, named, depth}
use congine.Json.{str, dict, Fields, end, field, get}
use congine.Json.Text.{split, starts_with, has_char}
use congine.Prelude.{ℕ}
use congine.Vocabulary.{
  find_unenforced_keywords, sorted_set, insert_sorted, type_is_enforceable, show_ℕ,
}

unfoldable pub admission_code : Unit {0}
unfolding admit_contract findings legacy_advisories verdict effective_capability check_reported
    check_unsupported_keywords check_exclusive check_exclusive_bounds check_format check_formats
    check_keys check_nested_patterns last_segment check_entries check_names check_top_level_lists
    check_type check_enum check_bound check_range check_regex_value check_pattern check_spec
    check_property check_each check_properties check_references resolve_pointer reference_cycle
    reference_cycle_from descend_all descend unescape_pointer_token replace_pair size subschemas
    walk_subschemas children_of over indexed named depth split starts_with has_char
    find_unenforced_keywords sorted_set insert_sorted type_is_enforceable show_ℕ get
admission_code = tt

abbrev pub misspelt : Fields ℕ
misspelt = field "properties" (dict (field "age" (dict (field "type" (str "int") end)) end)) end
