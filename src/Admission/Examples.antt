-- ===== src/Admission/Examples.antt =====
-- Tests of admission on the contract of the README, and its theorems at that contract.
use congine.Admission.{strict, AdmissionResult, admit_contract, findings}
use congine.Admission.Grammar.{Code, unknown_type, unsupported_keyword, unsupported_reference}
use congine.Admission.Declared.{Enforceable, admitted-Enforceable}
use congine.Admission.Samples.{admission_code, misspelt}
use congine.Admission.Complete.{Subschema, itself, inside, mapped, Visits, subschemas_complete}
use congine.Admission.Walk.{subschemas}
use congine.Admission.Total.{admitted-validate}
use congine.Admission.Verdict.{admitted-iff-clean}
use congine.Json.{here, there, null, str, dict, Fields, end, field, ok, get}
use congine.Models.{ValidationResult}
use congine.Prelude.{
  contains, false, ◌++◌, ℕ, String, ◌≡◌, ◌↔◌, refl, true, none, List, [], ◌∷◌, map, arith,
}
use congine.Samples.{
  confidence_spec, reply_properties, whole_floats, literal_re, reply_schema, good_reply,
}
use congine.Validator.Local.{validate}
use congine.Vocabulary.{semantic_enforced_keywords, native_enforced_keywords}

abbrev admit : Fields ℕ → AdmissionResult
admit schema =
    admit_contract literal_re (λ s. none) strict native_enforced_keywords none (dict schema)

abbrev reasons : AdmissionResult → List (Code × String)
reasons r = map (λ i. (i.finding.code, i.finding.path)) r.issues

reply_admitted : (admit reply_schema).admitted ≡ true
unfolding admission_code
reply_admitted = refl

misspelt_refused : reasons (admit misspelt) ≡ (unknown_type, "age.type") ∷ []
unfolding admission_code
misspelt_refused = refl

-- `{"$defs": {"a": {"$ref": "#/$defs/a"}}}`
abbrev recursive : Fields ℕ
recursive = field "$defs" (dict (field "a" (dict (field "$ref" (str "#/$defs/a") end)) end)) end

recursive_refused :
    reasons (admit recursive)
    ≡ (unsupported_keyword, "<root>.$defs") ∷ (unsupported_reference, "<root>.$defs.a.$ref") ∷ []
unfolding admission_code
recursive_refused = refl

-- A declared null is admitted, though the rule engine raises on it.
null_required_admitted : (admit (field "required" null end)).admitted ≡ true
unfolding admission_code
null_required_admitted = refl

admitted-iff-clean_example :
    ((admit reply_schema).admitted ≡ true)
    ↔ (findings literal_re (λ s. none) native_enforced_keywords none reply_schema ≡ [])
admitted-iff-clean_example =
    admitted-iff-clean literal_re (λ s. none) strict native_enforced_keywords none reply_schema

admitted-validate_example :
    (r : ValidationResult) × (validate whole_floats literal_re (dict good_reply) reply_schema
      ≡ ok r)
unfolding get
admitted-validate_example =
    admitted-validate whole_floats literal_re (λ s. none) strict native_enforced_keywords none
      reply_schema good_reply reply_admitted (ground arith) (ground arith) (ground arith)
      (λ name s h. refl)

admitted-Enforceable_example :
    (spec : Fields ℕ) × (dict confidence_spec ≡ dict spec)
    × Enforceable literal_re "confidence" spec
unfolding get
admitted-Enforceable_example =
    admitted-Enforceable literal_re (λ s. none) strict native_enforced_keywords none reply_schema
      reply_properties reply_admitted refl (there here)

confidence_inside : Subschema reply_schema confidence_spec
unfolding get contains
confidence_inside = inside (mapped "properties" "confidence" refl refl (there here)) itself

subschemas_complete_example : Visits (subschemas reply_schema) confidence_spec
subschemas_complete_example = subschemas_complete reply_schema confidence_inside

abbrev nulls : List String → Fields ℕ → Fields ℕ
nulls [] fs = fs
nulls (key ∷ ks) fs = field key null (nulls ks fs)

-- Twenty keywords of the semantic evaluator, and one that nobody knows.
abbrev hidden : Fields ℕ
hidden =
    nulls
      ("allOf" ∷ "anyOf" ∷ "additionalProperties" ∷ "const" ∷ "contains" ∷ "definitions"
        ∷ "dependentRequired" ∷ "dependentSchemas" ∷ "else" ∷ "if" ∷ "items" ∷ "maxContains"
        ∷ "maxItems" ∷ "maxLength" ∷ "maxProperties" ∷ "minContains" ∷ "minItems" ∷ "minLength"
        ∷ "minProperties" ∷ "multipleOf" ∷ [])
      (field "zzz" null end)

abbrev admit_semantic : Fields ℕ → AdmissionResult
admit_semantic schema =
    admit_contract literal_re (λ s. none) strict
      (native_enforced_keywords ++ semantic_enforced_keywords) none (dict schema)

unknown_refused : (admit_semantic (field "zzz" null end)).admitted ≡ false
unfolding admission_code
unknown_refused = refl

-- The cap on the report hides the unknown keyword.
hidden_admitted : (admit_semantic hidden).admitted ≡ true
unfolding admission_code
hidden_admitted = refl
