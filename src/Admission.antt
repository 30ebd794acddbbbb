-- ===== src/Admission.antt =====
-- libs/congine-sdk/src/congine_core/domain/contract_admission.py: whether a contract may become
-- active policy. Every check but the advisories appends issues of level ERROR; a check is a function
-- to the findings it appends, in its order, and `admit_contract` makes issues of them.
pub mod Grammar
pub mod Walk
pub mod References
pub mod Coverage
pub mod Fuel
pub mod Complete
pub mod Verdict
pub mod Engine
pub mod Total
pub mod Declared
pub mod Samples
mod Examples
use congine.Json.{ℤ, Value, dict, Fields, Re2, get, has}
use congine.Prelude.{
  ℕ, String, Bool, true, false, not, ◌||◌, Option, none, some, List, [], ◌∷◌, ◌++◌, map, any, take,
  length, ltb, if◌then◌else◌,
}
use congine.Vocabulary.{SemanticCapability}
use Coverage.{
  check_unsupported_keywords, check_exclusive_bounds, check_formats, check_nested_patterns,
}
use Grammar.{
  Code, Finding, found, invalid_structure, legacy_construct, check_top_level_lists,
  check_properties,
}
use References.{check_references}

-- `ContractAdmissionLevel`
pub data Level : Type 0 where
  error warning : Level

-- `ContractAdmissionIssue`
pub record Issue : Type 0 where
  pub finding : Finding
  pub level : Level

-- `ContractAdmissionResult`
pub record AdmissionResult : Type 0 where
  pub admitted : Bool
  pub issues : List Issue

-- `ContractAdmissionMode` of config.py
pub data Mode : Type 0 where
  strict warn : Mode

-- `_MAX_ISSUES`
abbrev pub max_issues : ℕ
max_issues = 50

abbrev pub error_of : Finding → Issue
error_of f = record { finding = f; level = error }

abbrev pub is_error : Issue → Bool
is_error i = elim i.level [ error ↦ true | warning ↦ false ]

-- `capability or SemanticCapability(draft="unspecified", enforced_keywords=enforced_keywords)`
unfoldable pub effective_capability : List String → Option SemanticCapability → SemanticCapability
effective_capability enforced_keywords none = record {
  enforced_keywords = enforced_keywords;
  format_assertion = false;
  supported_formats = [];
  boolean_exclusive_bounds = false;
}
effective_capability enforced_keywords (some c) = c

module _ {F : Type 0} where
  -- `_add_legacy_advisories`
  unfoldable pub legacy_advisories : Fields F → List Issue
  legacy_advisories schema =
      if has "null_forbidden" schema
      then record {
        finding = record { code = legacy_construct; path = "<root>.null_forbidden" };
        level = warning;
      }
        ∷ []
      else []

  abbrev pub advisories : Mode → Fields F → List Issue
  advisories strict schema = []
  advisories warn schema = legacy_advisories schema

  abbrev pub format_findings :
      Option SemanticCapability → SemanticCapability → Fields F → List Finding
  format_findings none effective schema = []
  format_findings (some c) effective schema = check_formats effective schema

-- `any issue at ERROR level refuses`, of the issues that are kept
unfoldable pub verdict : List Issue → AdmissionResult
verdict issues =
    let kept = if ltb max_issues (length issues) then take max_issues issues else issues in
    record { admitted = not (any is_error kept); issues = kept }

module _ {F : Type 0} (re : Re2) (parse_int : String → Option ℤ) where
  -- what the checks of `admit_contract` append, in their order
  unfoldable pub findings : List String → Option SemanticCapability → Fields F → List Finding
  unfolding effective_capability
  findings enforced_keywords capability schema =
      let effective = effective_capability enforced_keywords capability in
      check_top_level_lists schema
      ++ (check_properties re (get "properties" schema)
          ++ (check_unsupported_keywords enforced_keywords schema
              ++ (check_exclusive_bounds effective schema
                  ++ (check_references parse_int schema
                      ++ (check_nested_patterns re schema
                          ++ format_findings capability effective schema)))))

  -- `admit_contract`
  unfoldable pub admit_contract :
      Mode → List String → Option SemanticCapability → Value F → AdmissionResult
  unfolding verdict legacy_advisories
  admit_contract mode enforced_keywords capability (dict schema) =
      verdict
        (map error_of (findings enforced_keywords capability schema) ++ advisories mode schema)
  admit_contract mode enforced_keywords capability _ = record {
    admitted = false;
    issues = error_of (record { code = invalid_structure; path = "<root>" }) ∷ [];
  }
