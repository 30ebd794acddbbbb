-- ===== src/UseCase/Conforming.antt =====
-- The workflow over the rule engine at the contract of the README.
use congine.Json.{dict, nil, get, ok}
use congine.Json.Builtins.{iterate, is_in, less, greater, len, has_item, eq_value}
use congine.Json.Text.{split}
use congine.Models.{ValidationResult, result_of, pass, EvaluationStage, is_pass}
use congine.Prelude.{ℕ, ◌*◌, ◌≡◌, refl, none, some, []}
use congine.Samples.{
  whole_floats, literal_re, reply_schema, reply_required, reply_properties, good_reply,
}
use congine.UseCase.{
  Settings, World, returns, strict, execute, governed_result, schema_result, check_size,
  resolve_schema, staged_result, after_native, run_stage, semantic_result, finalize, merge,
  degraded, ◌>>=◌,
}
use congine.UseCase.Actions.{publish}
use congine.UseCase.Deadlines.{new_budget}
use congine.UseCase.Governed.{strict-Conforms}
use congine.UseCase.Stages.{Came, staged_result-Came}
use congine.Validator.{
  each, each_field, field_presence, type_match, enum_values, range_check, null_guard, regex_pattern,
}
use congine.Validator.Conforms.{Conforms}
use congine.Validator.Local.{validate, extract_params}
use congine.Validator.Types.{type_matches, type_label, name_matches}

governed_code : Unit {0}
unfolding execute governed_result schema_result check_size resolve_schema staged_result after_native
    run_stage semantic_result finalize merge new_budget degraded is_pass ◌>>=◌ publish validate get
    iterate is_in less greater len split each each_field field_presence type_match enum_values
    range_check null_guard regex_pattern extract_params type_matches type_label name_matches
    has_item eq_value
governed_code = tt

-- The rule engine alone, with the limits that the configuration takes by default.
abbrev settings : Settings ℕ (Unit {0})
settings = record {
  storage_get = λ s k. (some reply_schema, s);
  validator = validate whole_floats literal_re;
  semantic_validator = none;
  measure = λ v. some 100;
  fate = λ n ms. returns;
  timeout_ms = 100;
  native_timeout_ms = some 20;
  semantic_timeout_ms = none;
  fail_mode = strict;
  max_payload_bytes = 1048576;
  max_schema_bytes = 1048576;
}

abbrev start : World (Unit {0})
start = record { clock = λ n. n * 1000; ticks = 0; runs = 0; store = tt; events = [] }

abbrev reply_result : ValidationResult
reply_result = record (result_of pass []) { evaluation_stage = some EvaluationStage.native }

abbrev finish : World (Unit {0})
finish = (execute settings (dict good_reply) "reply" "1" start).1

passes : execute settings (dict good_reply) "reply" "1" start ≡ (ok reply_result, finish)
unfolding governed_code
passes = refl

strict-Conforms_example :
    Conforms whole_floats literal_re reply_required reply_properties nil good_reply
unfolding get
strict-Conforms_example =
    strict-Conforms whole_floats literal_re settings "reply" "1" start finish good_reply
      reply_schema reply_required nil reply_properties refl refl passes refl refl refl refl

abbrev staged : World (Unit {0})
staged = (staged_result settings (dict good_reply) reply_schema start).1

staged_passes :
    staged_result settings (dict good_reply) reply_schema start ≡ (ok reply_result, staged)
unfolding governed_code
staged_passes = refl

staged_result-Came_example : Came settings (dict good_reply) reply_schema start staged reply_result
staged_result-Came_example =
    staged_result-Came settings (dict good_reply) reply_schema start staged staged_passes
