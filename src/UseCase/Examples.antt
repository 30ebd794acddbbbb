-- ===== src/UseCase/Examples.antt =====
-- Tests of the validation workflow, and its theorems at concrete inputs.
use congine.Json.{dict, ok}
use congine.Models.{pass, ValidationResult, result_of, is_pass, EvaluationStage}
use congine.Prelude.{ℕ, ◌*◌, ◌≡◌, refl, none, some, [], ◌++◌, arith, true}
use congine.Samples.{reply_schema, good_reply}
use congine.UseCase.{
  Settings, returns, World, execute, strict, degrade, governed_result, schema_result, check_size,
  resolve_schema, staged_result, after_native, run_stage, semantic_result, finalize, FailMode,
  merge, degraded, ◌>>=◌,
}
use congine.UseCase.Actions.{publish}
use congine.UseCase.Deadlines.{new_budget}
use congine.UseCase.Strict.{Honest, Evidence, execute-Evidence, strict-Evidence}
use congine.UseCase.Telemetry.{events_of, execute-events}

usecase_code : Unit {0}
unfolding execute governed_result schema_result check_size resolve_schema staged_result after_native
    run_stage semantic_result finalize merge new_budget degraded is_pass ◌>>=◌ publish
usecase_code = tt

-- A validator that passes everything, a storage that holds one contract, a clock that ticks once a
-- microsecond.
abbrev settings : FailMode → Settings ℕ (Unit {0})
settings mode = record {
  storage_get = λ s k. (some reply_schema, s);
  validator = λ p s. ok (result_of pass []);
  semantic_validator = some (λ p s. ok []);
  measure = λ v. some 100;
  fate = λ n ms. returns;
  timeout_ms = 100;
  native_timeout_ms = some 20;
  semantic_timeout_ms = none;
  fail_mode = mode;
  max_payload_bytes = 1048576;
  max_schema_bytes = 1048576;
}

abbrev start : World (Unit {0})
start = record { clock = λ n. n * 1000; ticks = 0; runs = 0; store = tt; events = [] }

abbrev reply_result : ValidationResult
reply_result = record (result_of pass []) { evaluation_stage = some EvaluationStage.semantic }

abbrev finish : World (Unit {0})
finish = (execute (settings strict) (dict good_reply) "reply" "1" start).1

passes : execute (settings strict) (dict good_reply) "reply" "1" start ≡ (ok reply_result, finish)
unfolding usecase_code
passes = refl

settings-Honest : (mode : FailMode) → Honest (settings mode)
settings-Honest mode payload schema r given unjudged = absurd (ground (arith, given, unjudged))

execute-Evidence_example :
    Evidence (settings strict) (dict good_reply) "reply" start finish reply_result
execute-Evidence_example =
    execute-Evidence (settings strict) (dict good_reply) "reply" "1" start finish
      (settings-Honest strict) passes (unfold is_pass in refl)

strict-Evidence_example :
    (is_pass reply_result ≡ true)
    × Evidence (settings strict) (dict good_reply) "reply" start finish reply_result
strict-Evidence_example =
    strict-Evidence (settings strict) (dict good_reply) "reply" "1" start finish
      (settings-Honest strict) refl passes

execute-events_example :
    (execute (settings degrade) (dict good_reply) "reply" "1" start).1.events
    ≡ []
      ++ events_of
          (settings degrade)
          (governed_result (settings degrade) (dict good_reply) "reply" start).0
          "reply"
          "1"
execute-events_example = execute-events (settings degrade) (dict good_reply) "reply" "1" start
