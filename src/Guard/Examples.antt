-- ===== src/Guard/Examples.antt =====
-- A function whose good reply is guarded in the `raise` mode, over a use case that degrades.
use congine.Container.{blank, ensure_open}
use congine.Guard.{raises, plain, finish, payload_of, call, wrapper}
use congine.Guard.Enforced.{Governed, wrapper-Governed}
use congine.Json.{dict, ok, raise, validation_error}
use congine.Models.{pass, fail, ValidationResult, result_of, is_pass}
use congine.Prelude.{ℕ, ◌*◌, ◌≡◌, refl, inl, none, some, [], arith}
use congine.Samples.{reply_schema, good_reply, bad_reply}
use congine.UseCase.{
  Settings, returns, World, execute, degrade, governed_result, schema_result, check_size,
  resolve_schema, staged_result, after_native, run_stage, semantic_result, finalize, merge,
  degraded, new_budget, publish, ◌>>=◌,
}
use congine.UseCase.Strict.{Honest}

guard_code : Unit {0}
unfolding wrapper finish payload_of call ensure_open execute governed_result schema_result
    check_size resolve_schema staged_result after_native run_stage semantic_result finalize merge
    new_budget degraded is_pass ◌>>=◌ publish
guard_code = tt

-- a native validator with that answer
abbrev settings : ValidationResult → Settings ℕ (Unit {0})
settings answer = record {
  storage_get = λ s k. (some reply_schema, s);
  validator = λ p s. ok answer;
  semantic_validator = none;
  measure = λ v. some 100;
  fate = λ n ms. returns;
  timeout_ms = 100;
  native_timeout_ms = none;
  semantic_timeout_ms = none;
  fail_mode = degrade;
  max_payload_bytes = 1048576;
  max_schema_bytes = 1048576;
}

abbrev start : World (Unit {0})
start = record { clock = λ n. n * 1000; ticks = 0; runs = 0; store = tt; events = [] }

abbrev finished : World (Unit {0})
finished =
    (wrapper (settings (result_of pass [])) blank raises dict none (ok good_reply) "reply" "1"
      start).1

hands_on :
    wrapper (settings (result_of pass [])) blank raises dict none (ok good_reply) "reply" "1" start
    ≡ (ok (plain good_reply), finished)
unfolding guard_code
hands_on = refl

holds_back :
    (wrapper
      (settings (result_of fail []))
      blank
      raises
      dict
      none
      (ok bad_reply)
      "reply"
      "1"
      start).0
    ≡ raise validation_error
unfolding guard_code
holds_back = refl

settings-Honest : Honest (settings (result_of pass []))
settings-Honest payload schema r given unjudged = absurd (ground (arith, given, unjudged))

wrapper-Governed_example :
    (ensure_open blank ≡ ok tt)
    × Governed
        (settings (result_of pass []))
        dict
        none
        (ok good_reply)
        "reply"
        start
        finished
        good_reply
wrapper-Governed_example =
    wrapper-Governed (settings (result_of pass [])) blank raises dict none (ok good_reply) "reply"
      "1" start finished settings-Honest (inl refl) hands_on
