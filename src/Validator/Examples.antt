-- ===== src/Validator/Examples.antt =====
-- Tests of the rule engine on the contract of the README, and its theorem at that contract.
use congine.Json.{dict, nil, end, get, ok, Result, raise, type_error, field, null}
use congine.Json.Builtins.{iterate, is_in, less, greater, len, has_item, eq_value}
use congine.Json.Text.{split}
use congine.Models.{pass, ValidationResult, is_pass, result_of}
use congine.Prelude.{String, ◌≡◌, refl, List, [], ◌∷◌, map}
use congine.Samples.{
  whole_floats, literal_re, reply_schema, reply_required, reply_properties, good_reply, bad_reply,
}
use congine.Validator.{
  each, each_field, field_presence, type_match, enum_values, range_check, null_guard, regex_pattern,
}
use congine.Validator.Conforms.{Conforms}
use congine.Validator.Enforced.{pass-Conforms}
use congine.Validator.Local.{validate, extract_params}
use congine.Validator.Types.{type_matches, type_label, name_matches}

validator_code : Unit {0}
unfolding validate get iterate is_in less greater len split each each_field field_presence
    type_match enum_values range_check null_guard regex_pattern extract_params type_matches
    type_label
validator_code = tt

rules_and_fields : Result ValidationResult → List (String × String)
rules_and_fields (ok r) = map (λ b. (b.rule, b.field_name)) r.breaches
rules_and_fields (raise e) = []

good_passes :
    validate whole_floats literal_re (dict good_reply) reply_schema ≡ ok (result_of pass [])
unfolding validator_code name_matches has_item eq_value
good_passes = refl

bad_fails :
    rules_and_fields (validate whole_floats literal_re (dict bad_reply) reply_schema)
    ≡ ("RANGE_CHECK", "confidence") ∷ []
unfolding validator_code rules_and_fields name_matches has_item eq_value
bad_fails = refl

-- A declared `null` where a list is read: the loop over it raises.
null_required :
    validate whole_floats literal_re (dict good_reply) (field "required" null end)
    ≡ raise type_error
unfolding validator_code name_matches has_item eq_value
null_required = refl

pass-Conforms_example :
    Conforms whole_floats literal_re reply_required reply_properties nil good_reply
unfolding get is_pass
pass-Conforms_example =
    pass-Conforms whole_floats literal_re good_reply reply_schema reply_required nil
      reply_properties refl refl refl good_passes refl
