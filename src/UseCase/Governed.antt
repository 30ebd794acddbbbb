-- ===== src/UseCase/Governed.antt =====
-- The workflow over the rule engine: what strict mode guarantees of a payload.
use congine.Json.{Value, list, dict, Items, nil, Fields, end, Floats, Re2, Result, ok, get_or}
use congine.Models.{BreachDetail, ValidationResult, is_pass}
use congine.Prelude.{String, ◌≡◌, true, false, none, some, Option, List, [], arith, subst, sym, ◌∙◌}
use congine.UseCase.{Settings, World, execute, strict}
use congine.UseCase.Strict.{Honest, Clean, strict-Evidence}
use congine.Validator.Conforms.{Conforms}
use congine.Validator.Enforced.{pass-Conforms}
use congine.Validator.Local.{validate, validate_with}

module _ {F : Type 0} (fl : Floats F) (re : Re2) where
  -- The rule engine never reports a degraded result.
  validate-enforced :
      (payload : Value F) (schema : Fields F) {r : ValidationResult}
      → validate fl re payload schema ≡ ok r
      → r.degraded ≡ false
  unfolding validate validate_with
  validate-enforced (dict payload) schema h = ground (arith, h)
  validate-enforced payload schema h = ground (arith, h)

  validate-Honest : {S : Type 0} (u : Settings F S) → u.validator ≡ validate fl re → Honest u
  validate-Honest u engine payload schema r given unjudged = absurd (
      ground (
        arith,
        validate-enforced payload schema (subst (λ v. v payload schema ≡ ok r) engine given),
        unjudged,
      ))

  validate-clean :
      (payload : Value F) (schema : Fields F) {r : ValidationResult}
      → validate fl re payload schema ≡ ok r
      → r.breaches ≡ []
      → is_pass r ≡ true
  unfolding validate validate_with is_pass
  validate-clean (dict payload) schema h e = ground (arith, h, e)
  validate-clean payload schema h e = absurd (ground (arith, h, e))

  Clean-pass :
      {S : Type 0} (u : Settings F S)
      (check : Option (Value F → Fields F → Result (List BreachDetail))) (payload : Value F)
      (schema : Fields F) (verdict : ValidationResult)
      → validate fl re payload schema ≡ ok verdict
      → Clean u check payload schema verdict
      → is_pass verdict ≡ true
  Clean-pass u none payload schema verdict h c = c
  Clean-pass u (some check) payload schema verdict h c = validate-clean payload schema h c.0

  some_same : {A : Type 0} {a b : A} → Path (Option A) (some a) (some b) → a ≡ b
  some_same h = ground (arith, h)

  pub strict-Conforms :
      {S : Type 0} (u : Settings F S) (contract_id version : String) (w w' : World S)
      (payload schema : Fields F) (required forbidden : Items F) (properties : Fields F)
      {r : ValidationResult}
      → u.validator ≡ validate fl re
      → u.fail_mode ≡ strict
      → execute u (dict payload) contract_id version w ≡ (ok r, w')
      → (u.storage_get w.store contract_id).0 ≡ some schema
      → get_or "required" (list nil) schema ≡ list required
      → get_or "properties" (dict end) schema ≡ dict properties
      → get_or "null_forbidden" (list nil) schema ≡ list forbidden
      → Conforms fl re required properties forbidden payload
  strict-Conforms u contract_id version w w' payload schema required forbidden properties engine
        mode h stored hr hp hf =
      let (_, evidence) =
        strict-Evidence u (dict payload) contract_id version w w' (validate-Honest u engine) mode
          h in
      let backed = evidence.backed in
      let same : evidence.schema ≡ schema = some_same (sym evidence.stored ∙ stored) in
      let judged : validate fl re (dict payload) evidence.schema ≡ ok backed.verdict =
        subst (λ v. v (dict payload) evidence.schema ≡ ok backed.verdict) engine backed.native_ok in
      pass-Conforms fl re payload schema required forbidden properties hr hp hf
        (subst (λ s. validate fl re (dict payload) s ≡ ok backed.verdict) same judged)
        (Clean-pass u u.semantic_validator (dict payload) evidence.schema backed.verdict judged
          backed.clean)
