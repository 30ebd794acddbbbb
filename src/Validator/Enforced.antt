-- ===== src/Validator/Enforced.antt =====
-- `LocalValidator.validate` with the default rules: a pass means that the contract is met.
use congine.Json.{
  Value, null, str, list, dict, Items, nil, Fields, end, Floats, Re2, InFields, here, there, Result,
  ok, raise, get, get_or,
}
use congine.Json.Text.{split}
use congine.Json.Builtins.{items, iterate}
use congine.Models.{BreachDetail, ValidationResult, is_pass}
use congine.Prelude.{
  String, true, ◌≡◌, ◌≢◌, refl, some, List, [], ◌∷◌, arith, string_eq, Bool-cases, inl, inr,
}
use congine.Validator.{
  each, each_field, field_presence, type_match, enum_values, range_check, null_guard, regex_pattern,
  check_presence, check_not_null, walk, check_type, check_enum, check_range, check_pattern,
}
use congine.Validator.Conforms.{Conforms}
use congine.Validator.Local.{
  Rule, declares, keep, range_keys, apply_rule, validate_with, default_rules, validate,
}
use congine.Validator.Sound.{
  ok_nil_parts, each_field-nil, each-items-nil, walk-PathPresent, Checked-Fits,
}

module _ {F : Type 0} where
  keep-InFields :
      (wanted : List String) {k : String} {v : Value F} {fs : Fields F}
      → declares wanted v ≡ true
      → InFields k v fs
      → InFields k v (keep wanted fs)
  unfolding keep
  keep-InFields wanted d (here {fs}) = rw d here
  keep-InFields wanted d (there {j} {w} {fs} i) = elim (Bool-cases (declares wanted w)) [
    | inl also ↦ rw also (there (keep-InFields wanted d i))
    | inr dropped ↦ rw dropped (keep-InFields wanted d i)
  ]

  -- A result that passes comes of a run in which every rule found nothing.
  pass_runs :
      (rules : List (String × Rule F)) (payload schema : Fields F) {r : ValidationResult}
      → validate_with rules (dict payload) schema ≡ ok r
      → is_pass r ≡ true
      → each (apply_rule payload schema) rules ≡ ok []
  pass_runs rules payload schema h p = go (each (apply_rule payload schema) rules) refl
    where
      go :
          (m : Result (List BreachDetail))
          → each (apply_rule payload schema) rules ≡ m
          → each (apply_rule payload schema) rules ≡ ok []
      go (ok []) e = e
      go (ok (b ∷ bs)) e = absurd (unfold validate_with is_pass in ground (arith, h, p, e))
      go (raise x) e = absurd (unfold validate_with is_pass in ground (arith, h, p, e))

module _ {F : Type 0} (fl : Floats F) (re : Re2) where
  -- What each of the six rules found, where all of them found nothing.
  record Silent (payload : Fields F) (required : Items F) (properties : Fields F)
      (forbidden : Items F) : Type 0 where
    presence : each (check_presence payload) (items required) ≡ ok []
    types : each_field (check_type fl payload) properties ≡ ok []
    enums : each_field (check_enum fl payload) (keep ("enum" ∷ []) properties) ≡ ok []
    ranges : each_field (check_range fl payload) (keep range_keys properties) ≡ ok []
    nulls : each (check_not_null payload) (items forbidden) ≡ ok []
    patterns : each_field (check_pattern fl re payload) (keep ("pattern" ∷ []) properties) ≡ ok []

  module _ (payload schema : Fields F) (required forbidden : Items F) (properties : Fields F)
      (has_required : get_or "required" (list nil) schema ≡ list required)
      (has_properties : get_or "properties" (dict end) schema ≡ dict properties)
      (has_forbidden : get_or "null_forbidden" (list nil) schema ≡ list forbidden) where
    Silent-pass :
        each (apply_rule payload schema) (default_rules fl re) ≡ ok []
        → Silent payload required properties forbidden
    unfolding each apply_rule field_presence type_match enum_values range_check null_guard
        regex_pattern iterate
    Silent-pass h =
        let (p, h1) =
          ok_nil_parts (apply_rule payload schema ("FIELD_PRESENCE", field_presence)) _ h in
        let (t, h2) = ok_nil_parts (apply_rule payload schema ("TYPE_MATCH", type_match fl)) _ h1 in
        let (e, h3) =
          ok_nil_parts (apply_rule payload schema ("ENUM_VALUES", enum_values fl)) _ h2 in
        let (r, h4) =
          ok_nil_parts (apply_rule payload schema ("RANGE_CHECK", range_check fl)) _ h3 in
        let (n, h5) = ok_nil_parts (apply_rule payload schema ("NULL_GUARD", null_guard)) _ h4 in
        let (g, h6) =
          ok_nil_parts (apply_rule payload schema ("REGEX_PATTERN", regex_pattern fl re)) (ok [])
            h5 in
        record {
          presence = rw has_required at p;
          types = rw has_properties at t;
          enums = rw has_properties at e;
          ranges = rw has_properties at r;
          nulls = rw has_forbidden at n;
          patterns = rw has_properties at g;
        }

    pub pass-Conforms :
        {r : ValidationResult}
        → validate fl re (dict payload) schema ≡ ok r
        → is_pass r ≡ true
        → Conforms fl re required properties forbidden payload
    unfolding validate
    pass-Conforms h p =
        silent_conforms (Silent-pass (pass_runs (default_rules fl re) payload schema h p))
      where
        silent_conforms :
            Silent payload required properties forbidden
            → Conforms fl re required properties forbidden payload
        silent_conforms q = record {
          present = λ name i.
              walk-PathPresent (split b'.' name) (dict payload)
                (presence_walk name (each-items-nil (check_presence payload) i q.presence));
          not_null = λ name i. not_null_of name (each-items-nil (check_not_null payload) i q.nulls);
          fits = λ name spec v i found.
              Checked-Fits fl re payload name spec v
                (record {
                  type_ok = each_field-nil (check_type fl payload) i q.types;
                  enum_ok = λ d.
                      each_field-nil (check_enum fl payload) (keep-InFields ("enum" ∷ []) d i)
                        q.enums;
                  range_ok = λ d.
                      each_field-nil (check_range fl payload) (keep-InFields range_keys d i)
                        q.ranges;
                  pattern_ok = λ d.
                      each_field-nil (check_pattern fl re payload)
                        (keep-InFields ("pattern" ∷ []) d i) q.patterns;
                })
                found;
        }
          where
            presence_walk :
                (name : String)
                → check_presence payload (str name) ≡ ok []
                → walk (split b'.' name) (dict payload) ≡ true
            presence_walk name h = unfold check_presence in ground (arith, h)

            not_null_of :
                (name : String)
                → check_not_null payload (str name) ≡ ok []
                → get name payload ≢ some null
            not_null_of name h e = unfold check_not_null in ground (arith, h, e)
