-- ===== src/Admission/Total.antt =====
-- An admitted contract never makes the rule engine raise.
use congine.Admission.{Mode, admit_contract, findings}
use congine.Admission.Engine.{
  Returns, returned, nil_parts, each-Returns-entries, each_field-Returns-all, each_field-Returns,
  check_type-returns, check_enum-returns, check_range-returns, check_pattern-returns,
}
use congine.Admission.Grammar.{
  check_entries, check_names, check_top_level_lists, check_each, check_properties,
}
use congine.Admission.Verdict.{admitted-iff-clean}
use congine.Json.{
  ℤ, Value, null, str, list, dict, Items, nil, Fields, end, Floats, Re2, Result, ok, get, get_or,
  ◌>>=◌,
}
use congine.Json.Builtins.{iterate}
use congine.Models.{BreachDetail, ValidationResult, result_of, status_of}
use congine.Prelude.{
  String, true, ◌≡◌, ◌≢◌, refl, Option, none, some, List, [], ◌∷◌, ◌++◌, arith, string_eq,
}
use congine.Validator.{
  each, field_presence, type_match, enum_values, range_check, null_guard, regex_pattern,
  check_presence, check_not_null, check_type, check_enum, check_range, check_pattern,
}
use congine.Validator.Local.{
  range_keys, extract_params, apply_rule, validate_with, default_rules, validate,
}
use congine.Vocabulary.{SemanticCapability}

module _ {F : Type 0} where
  names_of :
      (path : String) (o : Option (Value F))
      → o ≢ some null
      → check_names path o ≡ []
      → (xs : Items F) × (elim o [ none ↦ list nil | some v ↦ v ] ≡ list xs)
        × (check_entries path xs ≡ [])
  unfolding check_names
  names_of path none ne h = (nil, refl, unfold check_entries in refl)
  names_of path (some null) ne h = absurd (ne refl)
  names_of path (some (list xs)) ne h = (xs, refl, h)
  names_of path (some v) ne h = absurd (ground (arith, h))

  properties_of :
      (re : Re2) (o : Option (Value F))
      → o ≢ some null
      → check_properties re o ≡ []
      → (fs : Fields F) × (elim o [ none ↦ dict end | some v ↦ v ] ≡ dict fs)
        × (check_each re fs ≡ [])
  unfolding check_properties
  properties_of re none ne h = (end, refl, unfold check_each in refl)
  properties_of re (some null) ne h = absurd (ne refl)
  properties_of re (some (dict fs)) ne h = (fs, refl, h)
  properties_of re (some v) ne h = absurd (ground (arith, h))

then_Returns :
    {m n : Result (List BreachDetail)}
    → Returns m
    → Returns n
    → Returns (m >>= λ found. n >>= λ rest. ok (found ++ rest))
then_Returns (a, e) (b, e') = (a ++ b, rw e (rw e' refl))

module _ {F : Type 0} (fl : Floats F) (re : Re2) (payload schema : Fields F) where
  rules-Return :
      (required forbidden : Items F) (properties : Fields F)
      → get_or "required" (list nil) schema ≡ list required
      → get_or "null_forbidden" (list nil) schema ≡ list forbidden
      → get_or "properties" (dict end) schema ≡ dict properties
      → check_entries "<root>.required" required ≡ []
      → check_entries "<root>.null_forbidden" forbidden ≡ []
      → check_each re properties ≡ []
      → ((name s : String) → get name payload ≡ some (str s) → re.encodes s ≡ true)
      → Returns (each (apply_rule payload schema) (default_rules fl re))
  unfolding each apply_rule extract_params field_presence type_match enum_values range_check
      null_guard regex_pattern iterate
  rules-Return required forbidden properties hr hf hp r f p encodes =
      then_Returns
        (rw hr (
          each-Returns-entries (check_presence payload) _ required
            (λ name. unfold check_presence in (_, refl)) r))
        (then_Returns
          (rw hp (
            each_field-Returns-all (check_type fl payload) properties
              (λ k v. returned _ (check_type-returns fl re payload k v))))
          (then_Returns
            (rw hp (
              each_field-Returns re ("enum" ∷ []) (check_enum fl payload) properties
                (λ k spec d sane. returned _ (check_enum-returns fl re payload k spec d sane)) p))
            (then_Returns
              (rw hp (
                each_field-Returns re range_keys (check_range fl payload) properties
                  (λ k spec d sane. returned _ (check_range-returns fl re payload k spec sane)) p))
              (then_Returns
                (rw hf (
                  each-Returns-entries (check_not_null payload) _ forbidden
                    (λ name. unfold check_not_null in (_, refl)) f))
                (then_Returns
                  (rw hp (
                    each_field-Returns re ("pattern" ∷ []) (check_pattern fl re payload) properties
                      (λ k spec d sane.
                        returned _ (check_pattern-returns fl re payload k spec d sane (encodes k)))
                      p))
                  ([], refl))))))

  validate-Returns :
      (required forbidden : Items F) (properties : Fields F)
      → get_or "required" (list nil) schema ≡ list required
      → get_or "null_forbidden" (list nil) schema ≡ list forbidden
      → get_or "properties" (dict end) schema ≡ dict properties
      → check_entries "<root>.required" required ≡ []
      → check_entries "<root>.null_forbidden" forbidden ≡ []
      → check_each re properties ≡ []
      → ((name s : String) → get name payload ≡ some (str s) → re.encodes s ≡ true)
      → Returns (validate fl re (dict payload) schema)
  unfolding validate validate_with
  validate-Returns required forbidden properties hr hf hp r f p encodes =
      let (breaches, e) = rules-Return required forbidden properties hr hf hp r f p encodes in
      (result_of (status_of breaches) breaches, rw e refl)

-- A contract that admission accepts, and in which neither `required` nor `null_forbidden` nor
-- `properties` is a literal null, never makes the rule engine raise: `LocalValidator.validate`
-- returns a result for every mapping whose texts encode as UTF-8 where they stand at its top level.
pub admitted-validate :
    {F : Type 0} (fl : Floats F) (re : Re2) (parse_int : String → Option ℤ) (mode : Mode)
    (enforced_keywords : List String) (capability : Option SemanticCapability)
    (schema payload : Fields F)
    → (admit_contract re parse_int mode enforced_keywords capability (dict schema)).admitted ≡ true
    → get "required" schema ≢ some null
    → get "null_forbidden" schema ≢ some null
    → get "properties" schema ≢ some null
    → ((name s : String) → get name payload ≡ some (str s) → re.encodes s ≡ true)
    → (r : ValidationResult) × (validate fl re (dict payload) schema ≡ ok r)
unfolding findings check_top_level_lists
admitted-validate fl re parse_int mode enforced_keywords capability schema payload admitted no_r
      no_f no_p encodes =
    let clean =
      (admitted-iff-clean re parse_int mode enforced_keywords capability schema).0 admitted in
    let (lists, rest) = nil_parts (check_top_level_lists schema) _ clean in
    let (declared, _) = nil_parts (check_properties re (get "properties" schema)) _ rest in
    let (r, f) = nil_parts (check_names "<root>.required" (get "required" schema)) _ lists in
    let (required, hr, er) = names_of _ (get "required" schema) no_r r in
    let (forbidden, hf, ef) = names_of _ (get "null_forbidden" schema) no_f f in
    let (properties, hp, ep) = properties_of re (get "properties" schema) no_p declared in
    validate-Returns fl re payload schema required forbidden properties hr hf hp er ef ep encodes
