-- ===== src/Guard/Enforced.antt =====
-- What a guarded output that reaches the caller has passed.
use congine.Container.{Container, ensure_open}
use congine.Guard.{
  Mode, envelope, output, raises, Reply, output_of, finish, payload_of, call, wrapper,
}
use congine.Json.{Value, Result, ok, raise}
use congine.Models.{ValidationResult, is_pass}
use congine.Prelude.{String, ◌≡◌, refl, sym, ap, ◌∙◌, subst, ◌⊎◌, inl, inr, true, Option, arith}
use congine.UseCase.{Settings, World, M, execute, strict, continue, ◌>>=◌}
use congine.UseCase.Strict.{Honest, Evidence, execute-Evidence, strict-Evidence}

module _ {S : Type 0} where
  call_parts :
      {A B : Type 0} (answer : Result A) (rest : A → M S B) (w w' : World S) {b : B}
      → (call answer >>= rest) w ≡ (ok b, w')
      → (a : A) × (answer ≡ ok a) × (rest a w ≡ (ok b, w'))
  unfolding call ◌>>=◌
  call_parts (ok a) rest w w' h = (a, refl, h)
  call_parts (raise e) rest w w' h = absurd (ground (arith, h))

  act_parts :
      {A B : Type 0} (act : M S A) (rest : A → M S B) (w w' : World S) {b : B}
      → (act >>= rest) w ≡ (ok b, w')
      → (a : A) × (w1 : World S) × (act w ≡ (ok a, w1)) × (rest a w1 ≡ (ok b, w'))
  unfolding ◌>>=◌
  act_parts {A} {B} act rest w w' {b} h = go (act w).0 (act w).1 refl h
    where
      go :
          (o : Result A) (w1 : World S)
          → act w ≡ (o, w1)
          → continue o rest w1 ≡ (ok b, w')
          → (a : A) × (v : World S) × (act w ≡ (ok a, v)) × (rest a v ≡ (ok b, w'))
      go (ok a) w1 e f = (a, w1, e, f)
      go (raise x) w1 e f = absurd (ground (arith, f))

finish-passes :
    {V : Type 0} (mode : Mode) (out : V) (r : ValidationResult) {reply : Reply V}
    → finish mode out r ≡ ok reply
    → (output_of reply ≡ out) × (mode ≡ raises → is_pass r ≡ true)
unfolding finish
finish-passes raises out r h = (ground (arith, h), λ m. ground (arith, h))
finish-passes output out r h = (ground (arith, h), λ m. absurd (ground (arith, m)))
finish-passes envelope out r h = (ground (arith, h), λ m. absurd (ground (arith, m)))

module _ {F S V : Type 0} where
  -- What the caller's output went through.
  pub record Governed (u : Settings F S) (itself : V → Value F)
      (extractor : Option (V → Result (Value F))) (returned : Result V) (contract_id : String)
      (w w' : World S) (out : V) : Type 0 where
    pub given : returned ≡ ok out
    pub payload : Value F
    pub extracted : payload_of itself extractor out ≡ ok payload
    pub result : ValidationResult
    pub passes : is_pass result ≡ true
    pub evidence : Evidence u payload contract_id w w' result

  governed :
      (u : Settings F S) (mode : Mode) (itself : V → Value F)
      (extractor : Option (V → Result (Value F))) (returned : Result V)
      (contract_id version : String) (w w' : World S) {reply : Reply V} (out : V)
      → returned ≡ ok out
      → (payload : Value F) → payload_of itself extractor out ≡ ok payload
      → (r : ValidationResult) (w1 : World S) → Honest u
      → (mode ≡ raises) ⊎ (u.fail_mode ≡ strict)
      → execute u payload contract_id version w ≡ (ok r, w1)
      → Path (Result (Reply V) × World S) (finish mode out r, w1) (ok reply, w')
      → Governed u itself extractor returned contract_id w w' (output_of reply)
  governed u mode itself extractor returned contract_id version w w' {reply} out given payload
        extracted r w1 honest how ran last =
      let (same, raised) = finish-passes mode out r (ap (λ x. x.0) last) in
      let ran' : execute u payload contract_id version w ≡ (ok r, w') =
        ran ∙ ap (λ v. (ok r, v)) (ap (λ x. x.1) last) in
      let passes : is_pass r ≡ true = elim how [
        | inl m ↦ raised m
        | inr s ↦ (strict-Evidence u payload contract_id version w w' honest s ran').0
      ] in
      subst (λ v. Governed u itself extractor returned contract_id w w' v) (sym same)
        (record {
          given = given;
          payload = payload;
          extracted = extracted;
          result = r;
          passes = passes;
          evidence = execute-Evidence u payload contract_id version w w' honest ran' passes;
        })

  -- Nothing that fails slips through a guard: in the `raise` mode, or in any mode over a strict use
  -- case, an output that the wrapper hands to the caller is what the function returned, on an open
  -- container, and its payload passed the workflow, with the evidence of an enforced pass.
  pub wrapper-Governed :
      (u : Settings F S) (container : Container) (mode : Mode) (itself : V → Value F)
      (extractor : Option (V → Result (Value F))) (returned : Result V)
      (contract_id version : String) (w w' : World S) {reply : Reply V}
      → Honest u
      → (mode ≡ raises) ⊎ (u.fail_mode ≡ strict)
      → wrapper u container mode itself extractor returned contract_id version w ≡ (ok reply, w')
      → (ensure_open container ≡ ok tt)
        × Governed u itself extractor returned contract_id w w' (output_of reply)
  unfolding wrapper
  wrapper-Governed u container mode itself extractor returned contract_id version w w' {reply}
        honest how h =
      let (t, is_open, h1) = call_parts (ensure_open container) _ w w' h in
      let (out, given, h2) = call_parts returned _ w w' h1 in
      let (payload, extracted, h3) = call_parts (payload_of itself extractor out) _ w w' h2 in
      let (r, w1, ran, h4) = act_parts (execute u payload contract_id version) _ w w' h3 in
      (
        is_open,
        governed u mode itself extractor returned contract_id version w w' out given payload
            extracted r w1 honest how ran (unfold call in h4),
      )
