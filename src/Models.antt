-- ===== src/Models.antt =====
-- libs/congine-sdk/src/congine_core/models.py: the values that the layers exchange. Durations and
-- creation times are readings of the clock that no decision uses; they are left out.
use congine.Prelude.{String, Bool, true, false, not, Option, none, List, []}

pub data DegradedReason : Type 0 where
  timeout load_shed resource_error internal_error : DegradedReason
  invalid_payload invalid_contract semantic_timeout : DegradedReason

pub data EvaluationStage : Type 0 where
  native semantic : EvaluationStage

pub record BreachDetail : Type 0 where
  pub rule : String
  pub field_name : String
  pub message : String

pub data Status : Type 0 where
  pass fail : Status

pub record ValidationResult : Type 0 where
  pub status : Status
  pub breaches : List BreachDetail
  pub degraded : Bool
  pub degraded_reason : Option DegradedReason
  pub evaluation_stage : Option EvaluationStage

-- the fields' defaults, behind the status and the breaches
abbrev pub result_of : Status → List BreachDetail → ValidationResult
result_of status breaches = record {
  status = status;
  breaches = breaches;
  degraded = false;
  degraded_reason = none;
  evaluation_stage = none;
}

-- `"pass" if not breaches else "fail"`
abbrev pub status_of : List BreachDetail → Status
status_of [] = pass
status_of _ = fail

unfoldable pub is_pass : ValidationResult → Bool
is_pass r = elim r.status [ pass ↦ true | fail ↦ false ]

unfoldable pub is_enforced : ValidationResult → Bool
is_enforced r = not r.degraded

pub record TelemetryEvent : Type 0 where
  pub contract_id : String
  pub contract_version : String
  pub status : Status
  pub breach_details : List BreachDetail
  pub degraded_reason : Option DegradedReason
  pub evaluation_stage : Option EvaluationStage
