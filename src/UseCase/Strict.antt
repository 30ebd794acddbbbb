-- ===== src/UseCase/Strict.antt =====
-- What a passing result of `execute` rests on, and what strict mode adds.
use congine.Json.{Value, Fields, Result, ok, raise, dict}
use congine.Models.{
  BreachDetail, ValidationResult, pass, is_pass, is_enforced, status_of, DegradedReason,
  invalid_contract, invalid_payload,
}
use congine.Prelude.{
  ℕ, ◌≤◌, String, ◌≡◌, true, false, Option, none, some, List, [], ◌∷◌, ◌++◌, arith, refl,
  Bool-cases, inl, inr, Option-cases, subst, sym, ◌∙◌, ap,
}
use congine.UseCase.{
  Settings, or_run, resolved, strict, check_size, resolve_schema, schema_result, governed_result,
  staged_result, finalize, execute, merge,
}
use congine.UseCase.Actions.{World, ◌>>=◌, continue, publish, pure}
use congine.UseCase.Stages.{
  Came, not_evaluated, not_judged, judged, judged_both, InTime, staged_result-Came,
}

no_breaches : (xs ys : List BreachDetail) → status_of (xs ++ ys) ≡ pass → (xs ≡ []) × (ys ≡ [])
no_breaches [] [] h = (refl, refl)
no_breaches [] (y ∷ ys) h = absurd (ground arith)
no_breaches (x ∷ xs) ys h = absurd (ground arith)

module _ {F S : Type 0} (u : Settings F S) where
  -- What the configured validators found in a payload that passes.
  abbrev pub Clean :
      Option (Value F → Fields F → Result (List BreachDetail))
      → Value F
      → Fields F
      → ValidationResult
      → Type 0
  Clean none payload schema verdict = is_pass verdict ≡ true
  Clean (some check) payload schema verdict =
      (verdict.breaches ≡ []) × (check payload schema ≡ ok [])

  -- A passing result is backed by a judgment: of the native validator, on the stored schema, with the
  -- semantic validator where one is configured, and with the clock read before the deadline.
  pub record Backed (payload : Value F) (schema : Fields F) (w w' : World S) (r : ValidationResult)
      : Type 0 where
    pub enforced : is_enforced r ≡ true
    pub verdict : ValidationResult
    pub native_ok : u.validator payload schema ≡ ok verdict
    pub live : verdict.degraded ≡ false
    pub clean : Clean u.semantic_validator payload schema verdict
    pub in_time : InTime u w w'

  -- A native validator never passes a payload that it reports as not judged.
  abbrev pub Honest : Type 0
  Honest =
      (payload : Value F) (schema : Fields F) (r : ValidationResult)
      → u.validator payload schema ≡ ok r
      → r.degraded ≡ true
      → is_pass r ≡ false

  Came-Backed :
      {payload : Value F} {schema : Fields F} {w w' : World S} {r : ValidationResult}
      → Honest
      → Came u payload schema w w' r
      → is_pass r ≡ true
      → Backed payload schema w w' r
  unfolding is_pass is_enforced merge
  Came-Backed honest (not_evaluated stage d) p = absurd (ground (arith, d.failed, p))
  Came-Backed {payload} {schema} {r = r} honest (not_judged given unjudged) p =
      absurd (ground (arith, honest payload schema r given unjudged, p))
  Came-Backed {payload} {schema} honest (judged r cfg given live t) p = record {
    enforced = ground (arith, live);
    verdict = r;
    native_ok = given;
    live = live;
    clean = subst (λ o. Clean o payload schema r) (sym cfg) p;
    in_time = t;
  }
  Came-Backed {payload} {schema} honest (judged_both r check found cfg given live sem t) p =
      record {
        enforced = ground (arith, live);
        verdict = r;
        native_ok = given;
        live = live;
        clean =
            subst (λ o. Clean o payload schema r) (sym cfg)
              (
                (no_breaches r.breaches found (passed p)).0,
                sem ∙ ap ok ((no_breaches r.breaches found (passed p)).1),
              );
        in_time = t;
      }
    where
      passed : is_pass (merge r found) ≡ true → status_of (r.breaches ++ found) ≡ pass
      passed h = unfold is_pass merge in ground (arith, h)

check_size-fails :
    (size : Option ℕ) (limit : ℕ) (place message : String) (reason : DegradedReason)
    {r : ValidationResult}
    → check_size size limit place message reason ≡ some r
    → is_pass r ≡ false
unfolding check_size is_pass
check_size-fails none limit place message reason h = ground (arith, h)
check_size-fails (some n) limit place message reason h = ground (arith, h)

check_size-fits :
    (size : Option ℕ) (limit : ℕ) (place message : String) (reason : DegradedReason)
    → check_size size limit place message reason ≡ none
    → (n : ℕ) × (size ≡ some n) × (n ≤ limit)
unfolding check_size
check_size-fits none limit place message reason h = absurd (ground (arith, h))
check_size-fits (some n) limit place message reason h = (n, refl, ground (arith, h))

module _ {F S : Type 0} (u : Settings F S) where
  -- The evidence for a pass of `execute`: the stored schema, a payload and a schema within their
  -- size bounds, and a judgment that backs the result.
  pub record Evidence (payload : Value F) (contract_id : String) (w w' : World S)
      (r : ValidationResult) : Type 0 where
    pub schema : Fields F
    pub stored : (u.storage_get w.store contract_id).0 ≡ some schema
    pub payload_fits : (n : ℕ) × (u.measure payload ≡ some n) × (n ≤ u.max_payload_bytes)
    pub schema_fits : (n : ℕ) × (u.measure (dict schema) ≡ some n) × (n ≤ u.max_schema_bytes)
    pub backed : Backed u payload schema w w' r

  module _ (payload : Value F) (contract_id : String) (w w' : World S) {r : ValidationResult}
      (honest : Honest u) (passes : is_pass r ≡ true) where
    with_schema-Evidence :
        (schema : Fields F) (o : Option ValidationResult)
        → (n : ℕ) × (u.measure payload ≡ some n) × (n ≤ u.max_payload_bytes)
        → (u.storage_get w.store contract_id).0 ≡ some schema
        → check_size
            (u.measure (dict schema))
            u.max_schema_bytes
            "<schema>"
            "Schema exceeds max_schema_bytes budget"
            invalid_contract
          ≡ o
        → or_run o
            (staged_result u payload schema)
            (record w { store = (u.storage_get w.store contract_id).1 })
          ≡ (ok r, w')
        → Evidence payload contract_id w w' r
    unfolding pure
    with_schema-Evidence schema (some q) fits stored c h =
        absurd (ground (arith, h, passes, check_size-fails _ _ _ _ _ c))
    with_schema-Evidence schema none fits stored c h = record {
      schema = schema;
      stored = stored;
      payload_fits = fits;
      schema_fits = check_size-fits _ _ _ _ _ c;
      backed = rebase (Came-Backed u honest (staged_result-Came u payload schema w1 w' h) passes);
    }
      where
        w1 : World S
        w1 = record w { store = (u.storage_get w.store contract_id).1 }

        rebase : Backed u payload schema w1 w' r → Backed u payload schema w w' r
        rebase b = record {
          enforced = b.enforced;
          verdict = b.verdict;
          native_ok = b.native_ok;
          live = b.live;
          clean = b.clean;
          in_time = b.in_time;
        }

    with_payload-Evidence :
        (o : Option ValidationResult)
        → check_size
            (u.measure payload)
            u.max_payload_bytes
            "<root>"
            "Payload exceeds max_payload_bytes budget"
            invalid_payload
          ≡ o
        → or_run o (schema_result u payload contract_id) w ≡ (ok r, w')
        → Evidence payload contract_id w w' r
    unfolding schema_result resolve_schema pure ◌>>=◌
    with_payload-Evidence (some q) c h =
        absurd (ground (arith, h, passes, check_size-fails _ _ _ _ _ c))
    with_payload-Evidence none c h = elim (Option-cases (u.storage_get w.store contract_id).0) [
      | inl absent ↦ absurd (ground (arith, h, absent))
      | inr (schema, found) ↦
          with_schema-Evidence schema _ (check_size-fits _ _ _ _ _ c) found refl
            (subst after found h)
    ]
      where
        w1 : World S
        w1 = record w { store = (u.storage_get w.store contract_id).1 }

        after : Option (Fields F) → Type 0
        after o =
            (resolved o >>= λ schema.
            or_run
              (check_size (u.measure (dict schema)) u.max_schema_bytes "<schema>"
                "Schema exceeds max_schema_bytes budget" invalid_contract)
              (staged_result u payload schema))
              w1
            ≡ (ok r, w')

    governed_result-Evidence :
        governed_result u payload contract_id w ≡ (ok r, w') → Evidence payload contract_id w w' r
    unfolding governed_result
    governed_result-Evidence h = with_payload-Evidence _ refl h

  finalize-same :
      (q r : ValidationResult) (contract_id version : String) (w w' : World S)
      → finalize u q contract_id version w ≡ (ok r, w')
      → (q ≡ r) × (w'.ticks ≡ w.ticks) × (u.fail_mode ≡ strict → is_pass r ≡ true)
  unfolding finalize publish ◌>>=◌
  finalize-same q r contract_id version w w' h = elim (Bool-cases (is_pass q)) [
    | inl p ↦ (ground (arith, h, p), ground (arith, h, p), λ s. ground (arith, h, p))
    | inr f ↦ (ground (arith, h, f), ground (arith, h, f), λ s. absurd (ground (arith, h, f, s)))
  ]

  execute_parts :
      (payload : Value F) (contract_id version : String) (w w' : World S) {r : ValidationResult}
      → execute u payload contract_id version w ≡ (ok r, w')
      → (q : ValidationResult) × (w1 : World S) × (governed_result u payload contract_id w
          ≡ (ok q, w1))
        × (finalize u q contract_id version w1 ≡ (ok r, w'))
  unfolding execute ◌>>=◌
  execute_parts payload contract_id version w w' {r} h = go _ _ refl h
    where
      go :
          (o : Result ValidationResult) (w1 : World S)
          → governed_result u payload contract_id w ≡ (o, w1)
          → continue o (λ q. finalize u q contract_id version) w1 ≡ (ok r, w')
          → (q : ValidationResult) × (w1 : World S) × (governed_result u payload contract_id w
              ≡ (ok q, w1))
            × (finalize u q contract_id version w1 ≡ (ok r, w'))
      go (ok q) w1 e f = (q, w1, e, f)
      go (raise x) w1 e f = absurd (ground (arith, f))

  -- No false safety in the workflow: whatever the runner does and however late, a result of
  -- `execute` that passes is enforced, and rests on a native judgment, a clean semantic judgment
  -- where a semantic validator is configured, of the stored schema and a payload within the size
  -- bounds, with the clock last read before the aggregate deadline.
  pub execute-Evidence :
      (payload : Value F) (contract_id version : String) (w w' : World S) {r : ValidationResult}
      → Honest u
      → execute u payload contract_id version w ≡ (ok r, w')
      → is_pass r ≡ true
      → Evidence payload contract_id w w' r
  execute-Evidence payload contract_id version w w' {r} honest h p =
      let (q, w1, e, f) = execute_parts payload contract_id version w w' h in
      let (same, ticks, _) = finalize-same q r contract_id version w1 w' f in
      later_world ticks (
        governed_result-Evidence payload contract_id w w1 honest p
          (subst (λ x. governed_result u payload contract_id w ≡ (ok x, w1)) same e))
    where
      later_world :
          {w1 : World S}
          → w'.ticks ≡ w1.ticks
          → Evidence payload contract_id w w1 r
          → Evidence payload contract_id w w' r
      later_world t b = record {
        schema = b.schema;
        stored = b.stored;
        payload_fits = b.payload_fits;
        schema_fits = b.schema_fits;
        backed = record {
          enforced = b.backed.enforced;
          verdict = b.backed.verdict;
          native_ok = b.backed.native_ok;
          live = b.backed.live;
          clean = b.backed.clean;
          in_time = ground (arith, t, b.backed.in_time);
        };
      }

  -- In strict mode every result that `execute` returns is a pass, with its evidence: a violation, a
  -- timeout, a shed load or a crash of a validator never returns.
  pub strict-Evidence :
      (payload : Value F) (contract_id version : String) (w w' : World S) {r : ValidationResult}
      → Honest u
      → u.fail_mode ≡ strict
      → execute u payload contract_id version w ≡ (ok r, w')
      → (is_pass r ≡ true) × Evidence payload contract_id w w' r
  strict-Evidence payload contract_id version w w' {r} honest s h =
      let (q, w1, e, f) = execute_parts payload contract_id version w w' h in
      let p : is_pass r ≡ true = (finalize-same q r contract_id version w1 w' f).2 s in
      (p, execute-Evidence payload contract_id version w w' honest h p)
