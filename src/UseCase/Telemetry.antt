-- ===== src/UseCase/Telemetry.antt =====
-- What `execute` publishes.
use congine.Json.{Value, Fields, Result, ok, raise}
use congine.Models.{EvaluationStage, BreachDetail, ValidationResult, TelemetryEvent}
use congine.Prelude.{
  ℕ, String, ◌≡◌, Bool, true, false, Option, none, some, List, [], ◌∷◌, ◌++◌, arith, refl, ◌∙◌,
  append-nil, if◌then◌else◌, ap, sym,
}
use congine.UseCase.{
  Settings, Outcome, finished, stopped, or_run, resolve_schema, schema_result, governed_result,
  staged_result, finalize, execute, event_of, run_stage, semantic_result, after_native,
}
use congine.UseCase.Actions.{World, M, ◌>>=◌, continue, publish, pure, throw}
use congine.UseCase.Deadlines.{Budget, new_budget, aggregate_expired}

-- An action that publishes nothing, whether it returns or raises.
abbrev Quiet : {S A : Type 0} → M S A → Type 0
Quiet {S} m = (w : World S) → (m w).1.events ≡ w.events

module _ {S A : Type 0} where
  pure-Quiet : (a : A) → Quiet (pure {S = S} a)
  unfolding pure
  pure-Quiet a w = refl

module _ {S A B : Type 0} where
  continue-Quiet :
      (o : Result A) (f : A → M S B) (w : World S)
      → ((a : A) → Quiet (f a))
      → (continue o f w).1.events ≡ w.events
  continue-Quiet (ok a) f w h = h a w
  continue-Quiet (raise e) f w h = refl

  bind-Quiet : (m : M S A) (f : A → M S B) → Quiet m → ((a : A) → Quiet (f a)) → Quiet (m >>= f)
  unfolding ◌>>=◌
  bind-Quiet m f q h w = continue-Quiet (m w).0 f (m w).1 h ∙ q w

module _ {S A : Type 0} where
  if-Quiet : (b : Bool) (m n : M S A) → Quiet m → Quiet n → Quiet (if b then m else n)
  if-Quiet true m n hm hn = hm
  if-Quiet false m n hm hn = hn

module _ {F S : Type 0} (u : Settings F S) where
  run_stage-Quiet :
      {A : Type 0} (work : Result A) (budget : Budget) (stage : EvaluationStage) (limit : Option ℕ)
      → Quiet (run_stage u work budget stage limit)
  unfolding run_stage ◌>>=◌
  run_stage-Quiet work budget stage limit w = ground arith

  aggregate_expired-Quiet : (budget : Budget) → Quiet (aggregate_expired {S = S} budget)
  unfolding aggregate_expired
  aggregate_expired-Quiet budget w = refl

  semantic_result-Quiet :
      (o : Option (Value F → Fields F → Result (List BreachDetail))) (payload : Value F)
      (schema : Fields F) (budget : Budget) (r : ValidationResult)
      → Quiet (semantic_result u o payload schema budget r)
  unfolding semantic_result
  semantic_result-Quiet none payload schema budget r = pure-Quiet _
  semantic_result-Quiet (some check) payload schema budget r =
      bind-Quiet _ _ (aggregate_expired-Quiet budget) λ late.
        if-Quiet late _ _ (pure-Quiet _)
          (bind-Quiet _ _ (run_stage-Quiet _ _ _ _) (λ o. pure-Quiet _))

  after_native-Quiet :
      (payload : Value F) (schema : Fields F) (budget : Budget) (o : Outcome ValidationResult)
      → Quiet (after_native u payload schema budget o)
  unfolding after_native
  after_native-Quiet payload schema budget (stopped r) = pure-Quiet _
  after_native-Quiet payload schema budget (finished r) =
      if-Quiet r.degraded _ _ (pure-Quiet _) (semantic_result-Quiet _ _ _ _ _)

  staged_result-Quiet :
      (payload : Value F) (schema : Fields F) → Quiet (staged_result u payload schema)
  unfolding staged_result
  staged_result-Quiet payload schema =
      bind-Quiet _ _ (λ w. unfold new_budget in refl)
        λ budget.
          bind-Quiet _ _ (run_stage-Quiet _ _ _ _) (after_native-Quiet payload schema budget)

  or_run-Quiet :
      (o : Option ValidationResult) (m : M S ValidationResult) → Quiet m → Quiet (or_run o m)
  or_run-Quiet none m h = h
  or_run-Quiet (some r) m h = pure-Quiet r

  resolve_schema-Quiet : (contract_id : String) → Quiet (resolve_schema u contract_id)
  unfolding resolve_schema pure throw
  resolve_schema-Quiet contract_id w = ground arith

  governed_result-Quiet :
      (payload : Value F) (contract_id : String) → Quiet (governed_result u payload contract_id)
  unfolding governed_result schema_result
  governed_result-Quiet payload contract_id = or_run-Quiet _ _ (
      bind-Quiet _ _ (resolve_schema-Quiet contract_id)
        (λ schema. or_run-Quiet _ _ (staged_result-Quiet payload schema)))

  finalize-events :
      (r : ValidationResult) (contract_id version : String) (w : World S)
      → (finalize u r contract_id version w).1.events
        ≡ w.events ++ event_of r contract_id version ∷ []
  unfolding finalize publish ◌>>=◌
  finalize-events r contract_id version w = ground arith

  -- The events of one call: one, for the result that the call reached, if it reached one.
  abbrev pub events_of : Result ValidationResult → String → String → List TelemetryEvent
  events_of (ok r) contract_id version = event_of r contract_id version ∷ []
  events_of (raise e) contract_id version = []

  -- One call of `execute` publishes exactly one event, of the result that it reached, also where
  -- strict mode then raises; it publishes none where no result was reached.
  pub execute-events :
      (payload : Value F) (contract_id version : String) (w : World S)
      → (execute u payload contract_id version w).1.events
        ≡ w.events ++ events_of (governed_result u payload contract_id w).0 contract_id version
  unfolding execute ◌>>=◌
  execute-events payload contract_id version w =
      go (governed_result u payload contract_id w).0 (governed_result u payload contract_id w).1
        (governed_result-Quiet payload contract_id w)
    where
      go :
          (o : Result ValidationResult) (w1 : World S)
          → w1.events ≡ w.events
          → (continue o (λ q. finalize u q contract_id version) w1).1.events
            ≡ w.events ++ events_of o contract_id version
      go (ok q) w1 e =
          finalize-events q contract_id version w1
          ∙ ap (λ x. x ++ event_of q contract_id version ∷ []) e
      go (raise x) w1 e = e ∙ sym (append-nil w.events)
