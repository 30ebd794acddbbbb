-- ===== src/UseCase/Stages.antt =====
-- What a stage of the validation workflow lets through.
use congine.Json.{Value, Fields, Result, ok, raise}
use congine.Models.{
  DegradedReason, EvaluationStage, native, semantic, semantic_timeout, BreachDetail,
  ValidationResult, fail,
}
use congine.Prelude.{
  ℕ, ◌+◌, ◌-◌, ◌*◌, ◌<◌, ◌≡◌, true, false, Option, none, some, List, [], arith, refl, subst, ◌∙◌,
  Bool-cases, inl, inr, is_some, leb, if◌then◌else◌,
}
use congine.UseCase.{
  Settings, Outcome, finished, stopped, degraded, run_stage, staged_result, merge, semantic_result,
  after_native,
}
use congine.UseCase.Actions.{World, ◌>>=◌, continue, pure}
use congine.UseCase.Deadlines.{Budget, ns_per_ms, new_budget, aggregate_expired}

-- A result of a stage that was stopped: it names the stage and a reason, and lists no breach.
pub record IsDegraded (stage : EvaluationStage) (r : ValidationResult) : Type 0 where
  pub not_enforced : r.degraded ≡ true
  pub failed : r.status ≡ fail
  pub no_breach : r.breaches ≡ []
  pub at_stage : r.evaluation_stage ≡ some stage
  pub reasoned : is_some r.degraded_reason ≡ true

pub degraded-IsDegraded :
    (reason : DegradedReason) (stage : EvaluationStage) → IsDegraded stage (degraded reason stage)
unfolding degraded
degraded-IsDegraded reason stage = record {
  not_enforced = refl;
  failed = refl;
  no_breach = refl;
  at_stage = refl;
  reasoned = refl;
}

module _ {F S A : Type 0} (u : Settings F S) (stage : EvaluationStage) where
  -- A stage that finishes has a value that the work gave, and after the work the clock was read
  -- before the aggregate deadline.
  pub run_stage-finished :
      (work : Result A) (budget : Budget) (limit : Option ℕ) (w : World S) {a : A} {w' : World S}
      → run_stage u work budget stage limit w ≡ (ok (finished a), w')
      → (work ≡ ok a) × (w'.clock ≡ w.clock) × (w.clock (w'.ticks - 1) < budget.aggregate_deadline)
  unfolding run_stage ◌>>=◌
  run_stage-finished work budget limit w h = ground (arith, h)

  pub run_stage-stopped :
      (work : Result A) (budget : Budget) (limit : Option ℕ) (w : World S) {r : ValidationResult}
      {w' : World S}
      → run_stage u work budget stage limit w ≡ (ok (stopped r), w')
      → IsDegraded stage r
  unfolding run_stage ◌>>=◌
  run_stage-stopped work budget limit w h = ground (arith, h)

module _ {F S : Type 0} (u : Settings F S) where
  -- The last reading of the clock lies before the aggregate deadline of a run that starts here.
  abbrev pub InTime : World S → World S → Type 0
  InTime w w' = w.clock (w'.ticks - 1) < w.clock w.ticks + u.timeout_ms * ns_per_ms

  -- How the result of a run of the two stages came about.
  pub data Came (payload : Value F) (schema : Fields F) (w w' : World S)
      : ValidationResult → Type 0 where
    -- a stage was stopped, before, while or after it ran
    not_evaluated :
        {r : ValidationResult} (stage : EvaluationStage)
        → IsDegraded stage r
        → Came payload schema w w' r
    -- the native validator itself reported that it could not judge
    not_judged :
        {r : ValidationResult}
        → u.validator payload schema ≡ ok r
        → r.degraded ≡ true
        → Came payload schema w w' r
    -- no semantic validator is configured, and the native one judged in time
    judged :
        (r : ValidationResult)
        → u.semantic_validator ≡ none
        → u.validator payload schema ≡ ok r
        → r.degraded ≡ false
        → InTime w w'
        → Came payload schema w w' (record r { evaluation_stage = some native })
    -- both validators judged in time
    judged_both :
        (r : ValidationResult) (check : Value F → Fields F → Result (List BreachDetail))
        (found : List BreachDetail)
        → u.semantic_validator ≡ some check
        → u.validator payload schema ≡ ok r
        → r.degraded ≡ false
        → check payload schema ≡ ok found
        → InTime w w'
        → Came payload schema w w' (merge r found)

  module _ (payload : Value F) (schema : Fields F) (w : World S) (budget : Budget)
      (starts : budget.aggregate_deadline ≡ w.clock w.ticks + u.timeout_ms * ns_per_ms) where
    -- the semantic stage, entered with what the native one gave
    semantic_stage-Came :
        (w2 w' : World S) (given : ValidationResult) {r : ValidationResult}
        (check : Value F → Fields F → Result (List BreachDetail))
        → w2.clock ≡ w.clock
        → u.semantic_validator ≡ some check
        → u.validator payload schema ≡ ok given
        → given.degraded ≡ false
        → (o : Result (Outcome (List BreachDetail))) (w3 : World S)
        → run_stage u (check payload schema) budget semantic u.semantic_timeout_ms w2 ≡ (o, w3)
        → continue o
            (λ outcome.
              pure (elim outcome [ stopped r ↦ r | finished breaches ↦ merge given breaches ]))
            w3
          ≡ (ok r, w')
        → Came payload schema w w' r
    unfolding pure
    semantic_stage-Came w2 w' given check same cfg native_ok live (raise e) w3 h e' =
        absurd (ground (arith, e'))
    semantic_stage-Came w2 w' given {r} check same cfg native_ok live (ok (stopped q)) w3 h e' =
        not_evaluated semantic (
          subst (IsDegraded semantic) (ground (arith, e'))
            (run_stage-stopped u semantic (check payload schema) budget u.semantic_timeout_ms w2 h))
    semantic_stage-Came w2 w' given {r} check same cfg native_ok live (ok (finished found)) w3 h
          e' =
        let (sem_ok, clocks, late) =
          run_stage-finished u semantic (check payload schema) budget u.semantic_timeout_ms w2 h in
        subst (Came payload schema w w') (ground (arith, e')) (
          judged_both given check found cfg native_ok live sem_ok
            (ground (arith, e', late, same, starts)))

    -- what follows a native judgment
    semantic_result-Came :
        (w2 w' : World S) (given : ValidationResult) {r : ValidationResult}
        (o : Option (Value F → Fields F → Result (List BreachDetail)))
        → w2.clock ≡ w.clock
        → (w.clock (w2.ticks - 1) < budget.aggregate_deadline)
        → u.semantic_validator ≡ o
        → u.validator payload schema ≡ ok given
        → given.degraded ≡ false
        → semantic_result u o payload schema budget given w2 ≡ (ok r, w')
        → Came payload schema w w' r
    unfolding semantic_result aggregate_expired ◌>>=◌
    semantic_result-Came w2 w' given none same in_time cfg native_ok live h =
        subst (Came payload schema w w') (ground (arith, h))
          (judged given cfg native_ok live (ground (arith, h, in_time, starts)))
    semantic_result-Came w2 w' given (some check) same in_time cfg native_ok live h =
        elim (Bool-cases (leb budget.aggregate_deadline (w2.clock w2.ticks))) [
          | inl late ↦ not_evaluated semantic (
              subst (IsDegraded semantic) (ground (arith, h, late))
                (degraded-IsDegraded semantic_timeout semantic))
          | inr on_time ↦
              semantic_stage-Came (record w2 { ticks = w2.ticks + 1 }) w' given check same cfg
                native_ok live _ _ refl (rw on_time at h)
        ]

    after_native-Came :
        (w2 w' : World S) {r : ValidationResult} (o : Result (Outcome ValidationResult))
        (w1 : World S)
        → w1.clock ≡ w.clock
        → run_stage u (u.validator payload schema) budget native u.native_timeout_ms w1 ≡ (o, w2)
        → continue o (λ outcome. after_native u payload schema budget outcome) w2 ≡ (ok r, w')
        → Came payload schema w w' r
    unfolding after_native pure
    after_native-Came w2 w' (raise e) w1 same h e' = absurd (ground (arith, e'))
    after_native-Came w2 w' (ok (stopped q)) w1 same h e' = not_evaluated native (
        subst (IsDegraded native) (ground (arith, e'))
          (run_stage-stopped u native (u.validator payload schema) budget u.native_timeout_ms w1 h))
    after_native-Came w2 w' {r} (ok (finished q)) w1 same h e' =
        let (native_ok, clocks, in_time) =
          run_stage-finished u native (u.validator payload schema) budget u.native_timeout_ms w1
            h in
        elim (Bool-cases q.degraded) [
          | inl unjudged ↦
              not_judged
                (subst (λ x. u.validator payload schema ≡ ok x) (ground (arith, e', unjudged))
                  native_ok)
                (ground (arith, e', unjudged))
          | inr live ↦
              semantic_result-Came w2 w' q u.semantic_validator (clocks ∙ same)
                (ground (arith, in_time, same)) refl native_ok live
                (subst
                  (λ b.
                    (if b
                        then pure q
                        else semantic_result u u.semantic_validator payload schema budget q)
                      w2
                    ≡ (ok r, w'))
                  live e')
        ]

  pub staged_result-Came :
      (payload : Value F) (schema : Fields F) (w w' : World S) {r : ValidationResult}
      → staged_result u payload schema w ≡ (ok r, w')
      → Came payload schema w w' r
  unfolding staged_result new_budget ◌>>=◌
  staged_result-Came payload schema w w' h =
      let deadline = w.clock w.ticks + u.timeout_ms * ns_per_ms in
      let budget : Budget = record { aggregate_deadline = deadline; stage_deadline = deadline } in
      after_native-Came payload schema w budget refl _ w' _ (record w { ticks = w.ticks + 1 }) refl
        refl h
