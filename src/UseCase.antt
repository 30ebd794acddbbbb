-- ===== src/UseCase.antt =====
-- libs/congine-sdk/src/congine_core/usecases/validate_contract_usecase.py: the validation workflow.
-- Its ports are parameters: the schema storage, the two validators, the runner, `json.dumps` for the
-- size bounds. `World` holds what the workflow reads and changes: the readings of the monotonic
-- clock in nanoseconds, the calls of the runner, the storage and the published telemetry. Log
-- records and the durations of results are left out: nothing is decided by them.
mod Actions
mod Deadlines
pub mod Stages
pub mod Strict
pub mod Telemetry
pub mod Governed
mod Examples
mod Conforming
pub use Actions.{World, M, Fate, returns, sheds, overruns, breaks, tick, continue}
pub use Deadlines.{Budget, open_stage, stage_expired, aggregate_expired, exhausted}
unfoldable pub use Actions.{publish, ◌>>=◌}
unfoldable pub use Deadlines.{new_budget}
use Actions.{pure, throw, gets, await, ◌>>◌}
use congine.Json.{
  Value, Fields, Result, ok, raise, Exc, attribute_error, type_error, value_error, memory_error,
  recursion_error, load_shed, timed_out, contract_not_found, validation_error, lifecycle_error,
  sync_error, os_error, dict,
}
use congine.Models.{
  DegradedReason, EvaluationStage, native, semantic, BreachDetail, ValidationResult, TelemetryEvent,
  result_of, status_of, fail, is_pass, timeout, semantic_timeout, resource_error, internal_error,
  invalid_payload, invalid_contract,
}
use congine.Prelude.{
  ℕ, String, Bool, true, false, Option, none, some, List, [], ◌∷◌, ◌++◌, ltb, nat_beq,
  if◌then◌else◌,
}

pub data FailMode : Type 0 where
  degrade strict silent : FailMode

-- The constructor's arguments, but for the ports that only log or publish.
pub record Settings (F S : Type 0) : Type 0 where
  pub storage_get : S → String → Option (Fields F) × S
  pub validator : Value F → Fields F → Result ValidationResult
  pub semantic_validator : Option (Value F → Fields F → Result (List BreachDetail))
  -- `len(json.dumps(..., default=str))`, `none` where it raises
  pub measure : Value F → Option ℕ
  -- what the runner does with its n-th call, given the milliseconds to wait
  pub fate : ℕ → ℕ → Fate
  pub timeout_ms : ℕ
  pub native_timeout_ms : Option ℕ
  pub semantic_timeout_ms : Option ℕ
  pub fail_mode : FailMode
  pub max_payload_bytes : ℕ
  pub max_schema_bytes : ℕ

-- What `_run_stage` returns: the stage's own value, or a degraded result.
pub data Outcome (A : Type 0) : Type 0 where
  finished : A → Outcome A
  stopped : ValidationResult → Outcome A

-- `_degraded` and `_degraded_on_error`
unfoldable pub degraded : DegradedReason → EvaluationStage → ValidationResult
degraded reason stage = record (result_of fail []) {
  degraded = true;
  degraded_reason = some reason;
  evaluation_stage = some stage;
}

-- `_degraded_unmeasurable`
unfoldable pub degraded_unmeasurable : DegradedReason → ValidationResult
degraded_unmeasurable reason = record (result_of fail []) {
  degraded = true;
  degraded_reason = some reason;
}

unfoldable pub timeout_reason : EvaluationStage → DegradedReason
timeout_reason native = timeout
timeout_reason semantic = semantic_timeout

-- The `except` clauses of `_run_stage`, in their order; `none` for what is raised on.
unfoldable pub caught : EvaluationStage → Exc → Option DegradedReason
unfolding timeout_reason
caught stage load_shed = some DegradedReason.load_shed
caught stage timed_out = some (timeout_reason stage)
caught stage memory_error = some resource_error
caught stage recursion_error = some resource_error
caught stage contract_not_found = none
caught stage validation_error = none
caught stage lifecycle_error = none
caught stage sync_error = none
caught stage _ = some internal_error

-- `_check_payload_size` and `_check_schema_size`
unfoldable pub check_size :
    Option ℕ → ℕ → String → String → DegradedReason → Option ValidationResult
unfolding degraded_unmeasurable
check_size none limit where_it message reason = some (degraded_unmeasurable reason)
check_size (some size) limit where_it message reason =
    if ltb limit size
    then some (
        result_of fail
          (record { rule = "INPUT_BOUNDS"; field_name = where_it; message = message } ∷ []))
    else none

-- what becomes of the runner's answer: a value is discarded if a deadline has passed
settle : {S A : Type 0} → EvaluationStage → Budget → Result A → M S (Outcome A)
unfolding caught exhausted degraded timeout_reason
settle stage budget (ok value) = do
  late ← exhausted budget
  pure (if late then stopped (degraded (timeout_reason stage) stage) else finished value)
settle stage budget (raise e) = elim (caught stage e) [
  | none ↦ throw e
  | some reason ↦ pure (stopped (degraded reason stage))
]

-- `_merge`
unfoldable pub merge : ValidationResult → List BreachDetail → ValidationResult
merge result semantic_breaches =
    let breaches = result.breaches ++ semantic_breaches in
    record {
      status = status_of breaches;
      breaches = breaches;
      degraded = result.degraded;
      degraded_reason = result.degraded_reason;
      evaluation_stage = some semantic;
    }

-- The event of `_finalize`; its messages go through the sanitizer, a regex that is not modelled.
unfoldable pub event_of : ValidationResult → String → String → TelemetryEvent
event_of result contract_id contract_version = record {
  contract_id = contract_id;
  contract_version = contract_version;
  status = result.status;
  breach_details = result.breaches;
  degraded_reason = if result.degraded then result.degraded_reason else none;
  evaluation_stage = if result.degraded then result.evaluation_stage else none;
}

-- `_handle_failure`: `none` where it returns
unfoldable pub handle_failure : FailMode → Option Exc
handle_failure silent = none
handle_failure strict = some validation_error
handle_failure degrade = none

-- `if oversize is not None: return ...`
abbrev pub or_run :
    {S : Type 0} → Option ValidationResult → M S ValidationResult → M S ValidationResult
or_run (some r) rest = pure r
or_run none rest = rest

module _ {F S : Type 0} where
  abbrev pub resolved : Option (Fields F) → M S (Fields F)
  resolved none = throw contract_not_found
  resolved (some schema) = pure schema

  -- `_resolve_schema`
  unfoldable pub resolve_schema : Settings F S → String → M S (Fields F)
  resolve_schema u contract_id w =
      let (found, store) = u.storage_get w.store contract_id in
      resolved found (record w { store = store })

  -- `_run_stage` and `_run_stage_async`, which differ in how they wait
  unfoldable pub run_stage :
      {A : Type 0} → Settings F S → Result A → Budget → EvaluationStage → Option ℕ → M S (Outcome A)
  unfolding settle open_stage await
  run_stage u work budget stage stage_cap_ms = do
    (wait_ms, budget') ← open_stage budget stage_cap_ms
    if nat_beq wait_ms 0
        then pure (stopped (degraded (timeout_reason stage) stage))
        else do answer ← await u.fate wait_ms work; settle stage budget' answer

  -- `_finalize`
  unfoldable pub finalize : Settings F S → ValidationResult → String → String → M S ValidationResult
  unfolding event_of handle_failure
  finalize u result contract_id contract_version = do
    publish (event_of result contract_id contract_version)
    if is_pass result
        then pure result
        else elim (handle_failure u.fail_mode) [ none ↦ pure result | some e ↦ throw e ]

  -- `execute` from the end of the native stage on: the result that is finalized
  unfoldable pub semantic_result :
      Settings F S
      → Option (Value F → Fields F → Result (List BreachDetail))
      → Value F
      → Fields F
      → Budget
      → ValidationResult
      → M S ValidationResult
  semantic_result u none payload schema budget result =
      pure (record result { evaluation_stage = some native })
  semantic_result u (some check) payload schema budget result = do
    expired ← aggregate_expired budget
    if expired then pure (degraded semantic_timeout semantic) else do
      outcome ← run_stage u (check payload schema) budget semantic u.semantic_timeout_ms
      pure (elim outcome [ stopped r ↦ r | finished breaches ↦ merge result breaches ])

  unfoldable pub after_native :
      Settings F S → Value F → Fields F → Budget → Outcome ValidationResult → M S ValidationResult
  after_native u payload schema budget (stopped r) = pure r
  after_native u payload schema budget (finished r) =
      if r.degraded then pure r else semantic_result u u.semantic_validator payload schema budget r

  -- the two stages, under a budget that starts here
  unfoldable pub staged_result : Settings F S → Value F → Fields F → M S ValidationResult
  staged_result u payload schema = do
    budget ← new_budget u.timeout_ms
    outcome ← run_stage u (u.validator payload schema) budget native u.native_timeout_ms
    after_native u payload schema budget outcome

  unfoldable pub schema_result : Settings F S → Value F → String → M S ValidationResult
  schema_result u payload contract_id = do
    schema ← resolve_schema u contract_id
    or_run
        (check_size (u.measure (dict schema)) u.max_schema_bytes "<schema>"
          "Schema exceeds max_schema_bytes budget" invalid_contract)
        (staged_result u payload schema)

  -- the result that `execute` finalizes
  unfoldable pub governed_result : Settings F S → Value F → String → M S ValidationResult
  governed_result u payload contract_id =
      or_run
        (check_size (u.measure payload) u.max_payload_bytes "<root>"
          "Payload exceeds max_payload_bytes budget" invalid_payload)
        (schema_result u payload contract_id)

  -- `execute`, and `execute_async`, its twin over the runner's other entry point
  unfoldable pub execute : Settings F S → Value F → String → String → M S ValidationResult
  execute u payload contract_id contract_version = do
    result ← governed_result u payload contract_id
    finalize u result contract_id contract_version
