-- ===== src/Semantic/Transparent.antt =====
-- The preparation cache changes no verdict.
use congine.Json.{Value, dict, Fields, Result, ok, raise}
use congine.Models.{BreachDetail}
use congine.Prelude.{
  ℕ, String, ◌≡◌, refl, sym, ap, ◌∙◌, subst, Bool, true, false, Option, none, some, List, [], ◌∷◌,
  arith, ◌==◌, contains, Bool-cases, inl, inr, map, false≢true, if◌then◌else◌,
}
use congine.Semantic.{
  Engine, Settings, evaluate, judge, mark_after, prepare_and_judge, unless_found, validate,
  validate_uncached, check_schema_patterns,
}
use congine.Semantic.Cache.{PreparationCache, init, move_to_end, is_prepared, mark_prepared}
use congine.Semantic.Identity.{Canon, CacheKey, key_eq, preparation_key}
use congine.Semantic.Markers.{identity-cases, init-empty, contains-move_to_end, contains-trim}

module _ {F : Type 0} (canon : Canon F) (engine : Engine F) (s : Settings) where
  abbrev key_for : Value F → CacheKey
  key_for v = preparation_key (canon.digest v) engine.validator_cls s.format_checking

  -- A marker stands for a schema that `check_schema` has accepted.
  abbrev pub Truthful : PreparationCache CacheKey → Type 0
  Truthful c =
      (v : Value F) → contains (key_for v) c.entries ≡ true → engine.check_schema v ≡ ok none

  -- Of content with one digest, `check_schema` accepts all or none; its messages may differ.
  abbrev pub Identified : Type 0
  Identified =
      (a b : Value F)
      → canon.digest a ≡ canon.digest b
      → engine.check_schema a ≡ ok none
      → engine.check_schema b ≡ ok none

  same_digest : (a b : Value F) → (key_for a == key_for b) ≡ true → canon.digest a ≡ canon.digest b
  unfolding preparation_key
  same_digest a b h = ap (λ k. k.digest) ((key_eq.beq_iff (key_for a) (key_for b)).0 h)

  is_prepared-Truthful :
      (v : Value F) (c : PreparationCache CacheKey)
      → Truthful c
      → Truthful (is_prepared (key_for v) c).1
  unfolding is_prepared
  is_prepared-Truthful v c t u h = elim (Bool-cases (contains (key_for v) c.entries)) [
    | inr absent ↦ t u (ground (arith, h, absent))
    | inl there ↦
        elim (contains-move_to_end (key_for u) (key_for v) c.entries (ground (arith, h, there))) [
          | inl same ↦ t u (
              subst (λ k. contains k c.entries ≡ true)
                ((key_eq.beq_iff (key_for v) (key_for u)).0 same) there)
          | inr before ↦ t u before
        ]
  ]

  mark_prepared-Truthful :
      Identified
      → (v : Value F) (c : PreparationCache CacheKey) → engine.check_schema v ≡ ok none
      → Truthful c
      → Truthful (mark_prepared (key_for v) c)
  unfolding mark_prepared
  mark_prepared-Truthful identified v c valid t u h =
      elim (contains-move_to_end (key_for u) (key_for v) c.entries
        (contains-trim (key_for u) (move_to_end (key_for v) c.entries) c h)) [
          | inl same ↦ identified v u (same_digest v u same) valid
          | inr before ↦ t u before
        ]

  mark_after-Truthful :
      Identified
      → (v : Value F) (c : PreparationCache CacheKey) (answer : Result (Option String))
      → engine.check_schema v ≡ answer
      → Truthful c
      → Truthful (mark_after canon engine s answer (key_for v) c)
  unfolding mark_after
  mark_after-Truthful identified v c (ok none) e t = mark_prepared-Truthful identified v c e t
  mark_after-Truthful identified v c (ok (some m)) e t = t
  mark_after-Truthful identified v c (raise x) e t = t

  -- the choice that `validate` makes by whether the schema is prepared
  abbrev chosen :
      Value F
      → Value F
      → Bool
      → PreparationCache CacheKey
      → Result (List BreachDetail) × PreparationCache CacheKey
  chosen payload v prepared c = if prepared then (evaluate canon engine s payload v, c) else (
    judge canon engine s payload v (engine.check_schema v),
    mark_after canon engine s (engine.check_schema v) (key_for v) c,
  )

  chosen-same :
      Identified
      → (payload v : Value F) (prepared : Bool) (c : PreparationCache CacheKey)
      → (prepared ≡ true → engine.check_schema v ≡ ok none)
      → Truthful c
      → ((chosen payload v prepared c).0 ≡ judge canon engine s payload v (engine.check_schema v))
        × Truthful (chosen payload v prepared c).1
  unfolding judge
  chosen-same identified payload v true c valid t = (rw (valid refl) refl, t)
  chosen-same identified payload v false c valid t =
      (refl, mark_after-Truthful identified v c (engine.check_schema v) refl t)

  prepare_and_judge-same :
      Identified
      → (payload v : Value F) (c : PreparationCache CacheKey) → Truthful c
      → ((prepare_and_judge canon engine s payload v (some (key_for v)) c).0
          ≡ judge canon engine s payload v (engine.check_schema v))
        × Truthful (prepare_and_judge canon engine s payload v (some (key_for v)) c).1
  unfolding prepare_and_judge
  prepare_and_judge-same identified payload v c t =
      chosen-same identified payload v (is_prepared (key_for v) c).0 (is_prepared (key_for v) c).1
        (λ h. t v (unfold is_prepared in ground (arith, h))) (is_prepared-Truthful v c t)

  -- One call, from a cache whose markers are truthful.
  validate-same :
      Identified
      → (payload : Value F) (schema : Fields F) (c : PreparationCache CacheKey) → Truthful c
      → ((validate canon engine s payload schema c).0
          ≡ validate_uncached canon engine s payload schema)
        × Truthful (validate canon engine s payload schema c).1
  unfolding validate validate_uncached
  validate-same identified payload schema c t = elim (identity-cases canon (dict schema)) [
    | inl plain ↦ rw plain (by_patterns (check_schema_patterns (dict schema)))
    | inr prepared ↦ rw prepared (by_patterns_prepared (check_schema_patterns (dict schema)))
  ]
    where
      by_patterns :
          (found : List BreachDetail)
          → ((unless_found found c
                (prepare_and_judge canon engine s payload (dict schema) none c)).0
              ≡ (unless_found found tt (
                judge canon engine s payload (dict schema) (engine.check_schema (dict schema)),
                tt,
              )).0)
            × Truthful
                (unless_found found c
                  (prepare_and_judge canon engine s payload (dict schema) none c)).1
      by_patterns [] = unfold prepare_and_judge in (refl, t)
      by_patterns (b ∷ bs) = (refl, t)

      by_patterns_prepared :
          (found : List BreachDetail)
          → ((unless_found found c (
                prepare_and_judge canon engine s payload
                  (dict schema)
                  (some (key_for (dict schema)))
                  c)).0
              ≡ (unless_found found tt (
                judge canon engine s payload (dict schema) (engine.check_schema (dict schema)),
                tt,
              )).0)
            × Truthful
                (unless_found found c (
                  prepare_and_judge canon engine s payload
                    (dict schema)
                    (some (key_for (dict schema)))
                    c)).1
      by_patterns_prepared [] = prepare_and_judge-same identified payload (dict schema) c t
      by_patterns_prepared (b ∷ bs) = (refl, t)

  -- What an evaluator answers to a sequence of calls, each a payload and a schema.
  abbrev pub answers :
      PreparationCache CacheKey → List (Value F × Fields F) → List (Result (List BreachDetail))
  answers c [] = []
  answers c ((payload, schema) ∷ calls) =
      (validate canon engine s payload schema c).0
      ∷ answers (validate canon engine s payload schema c).1 calls

  answers-same :
      Identified
      → (calls : List (Value F × Fields F)) (c : PreparationCache CacheKey) → Truthful c
      → answers c calls
        ≡ map (λ (payload, schema). validate_uncached canon engine s payload schema) calls
  answers-same identified [] c t = refl
  answers-same identified ((payload, schema) ∷ calls) c t =
      let (same, t') = validate-same identified payload schema c t in
      rw same (
        ap (λ rest. validate_uncached canon engine s payload schema ∷ rest)
          (answers-same identified calls _ t'))

  -- The preparation cache changes no verdict: where `check_schema` accepts all content of one digest or
  -- none of it, an
  -- evaluator with a fresh cache of any capacity answers every sequence of calls as the evaluator does
  -- that checks each schema anew, evictions and schemas that cannot be cached included.
  pub answers-uncached :
      (capacity : ℕ) {c : PreparationCache CacheKey} (calls : List (Value F × Fields F))
      → Identified
      → init capacity ≡ ok c
      → answers c calls
        ≡ map (λ (payload, schema). validate_uncached canon engine s payload schema) calls
  unfolding contains
  answers-uncached capacity {c} calls identified h = answers-same identified calls c (λ v there.
      absurd (false≢true (sym (ap (contains (key_for v)) (init-empty capacity h)) ∙ there)))
