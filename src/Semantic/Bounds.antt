-- ===== src/Semantic/Bounds.antt =====
-- How much the semantic validator reports, and how much its preparation cache keeps.
use congine.Json.{Value, ok}
use congine.Models.{BreachDetail}
use congine.Prelude.{
  ℕ, zero, suc, ◌+◌, ◌≤◌, String, ◌≡◌, refl, sym, ap, Bool, true, false, none, List, [], ◌∷◌, ◌++◌,
  append-nil, arith, Eq, length, ltb, map, take, if◌then◌else◌, contains, Bool-cases, inl, inr,
}
use congine.Semantic.{
  Error, Engine, Settings, drain, evaluate, field_path, semantic_breach, truncation,
}
use congine.Semantic.Cache.{
  PreparationCache, init, trim, without, move_to_end, is_prepared, mark_prepared, clear,
}
use congine.Semantic.Identity.{Canon}

-- the breach of one error
abbrev pub breach_of : (String → String) → Error → BreachDetail
breach_of sanitize e = semantic_breach (field_path e) (sanitize e.message)

ltb-suc : (m n : ℕ) → ltb m n ≡ ltb (suc m) (suc n)
ltb-suc m n = ground arith

append_if :
    (n : ℕ) (cut : Bool) (bs : List BreachDetail)
    → ok (if cut then bs ++ truncation n ∷ [] else bs)
      ≡ ok (bs ++ (if cut then truncation n ∷ [] else []))
append_if n true bs = refl
append_if n false bs = ap ok (sym (append-nil bs))

drain_all :
    (sanitize : String → String) (n : ℕ) (es : List Error)
    → drain sanitize n es none ≡ ok (map (breach_of sanitize) (take n es), ltb n (length es))
unfolding drain
drain_all sanitize zero [] = refl
drain_all sanitize (suc n) [] = ground arith
drain_all sanitize zero (e ∷ es) = ground arith
drain_all sanitize (suc n) (e ∷ es) = rw (drain_all sanitize n es) (
    ap (λ cut. ok (breach_of sanitize e ∷ map (breach_of sanitize) (take n es), cut))
      (ltb-suc n (length es)))

module _ {F : Type 0} (canon : Canon F) (engine : Engine F) (s : Settings) where
  -- What the evaluation of a document reports: where the errors of the engine come to an end, a breach
  -- for each of the first `max_breaches` of them, in their order, and one truncation breach more, which
  -- names the limit,
  -- exactly where the engine has more errors than that.
  pub evaluate-first :
      (payload snapshot : Value F) {errors : List Error}
      → engine.iter_errors s.format_checking snapshot payload ≡ (errors, none)
      → evaluate canon engine s payload snapshot
        ≡ ok (
            map (breach_of engine.sanitize) (take s.max_breaches errors)
            ++ (if ltb s.max_breaches (length errors) then truncation s.max_breaches ∷ [] else []))
  unfolding evaluate
  evaluate-first payload snapshot {errors} h = rw h (
      rw (drain_all engine.sanitize s.max_breaches errors) (
        append_if s.max_breaches (ltb s.max_breaches (length errors))
          (map (breach_of engine.sanitize) (take s.max_breaches errors))))

-- the calls on a preparation cache
pub data Call (K : Type 0) : Type 0 where
  looks_up : K → Call K
  marks : K → Call K
  clears : Call K

module _ {K : Type 0} ⦃e : Eq K⦄ where
  abbrev pub after_call : Call K → PreparationCache K → PreparationCache K
  after_call (looks_up k) c = (is_prepared k c).1
  after_call (marks k) c = mark_prepared k c
  after_call clears c = clear c

  abbrev pub after_calls : List (Call K) → PreparationCache K → PreparationCache K
  after_calls [] c = c
  after_calls (x ∷ xs) c = after_calls xs (after_call x c)

  Bounded : ℕ → PreparationCache K → Type 0
  Bounded n c = (c.capacity ≡ n) × (length c.entries ≤ n)

  length-without-le : (k : K) (ks : List K) → length (without k ks) ≤ length ks
  unfolding without
  length-without-le k [] = omega arith
  length-without-le k (j ∷ ks) = ground (arith, length-without-le k ks)

  length-without-lt :
      (k : K) (ks : List K) → contains k ks ≡ true → suc (length (without k ks)) ≤ length ks
  unfolding without contains
  length-without-lt k [] h = ground (arith, h)
  length-without-lt k (j ∷ ks) h = ground (arith, h, length-without-le k ks, length-without-lt k ks)

  length-snoc : (k : K) (ks : List K) → length (ks ++ k ∷ []) ≡ suc (length ks)
  length-snoc k [] = refl
  length-snoc k (j ∷ ks) = ap suc (length-snoc k ks)

  trim-Bounded : (ks : List K) (c : PreparationCache K) → Bounded c.capacity (trim ks c)
  unfolding trim Bounded
  trim-Bounded [] c = (refl, omega arith)
  trim-Bounded (k ∷ ks) c = elim (Bool-cases (ltb c.capacity (length (k ∷ ks)))) [
    | inl over ↦ ground (arith, over, trim-Bounded ks (record c { evictions = c.evictions + 1 }))
    | inr fits ↦ ground (arith, fits)
  ]

  after_call-Bounded :
      (n : ℕ) (x : Call K) (c : PreparationCache K) → Bounded n c → Bounded n (after_call x c)
  unfolding Bounded is_prepared mark_prepared clear move_to_end
  after_call-Bounded n (looks_up k) c (cap, h) =
      ground (arith, cap, h, length-snoc k (without k c.entries), length-without-lt k c.entries)
  after_call-Bounded n (marks k) c (cap, h) =
      ground (arith, cap, trim-Bounded (move_to_end k c.entries) c)
  after_call-Bounded n clears c (cap, h) = (cap, omega arith)

  after_calls-Bounded :
      (n : ℕ) (xs : List (Call K)) (c : PreparationCache K)
      → Bounded n c
      → Bounded n (after_calls xs c)
  after_calls-Bounded n [] c h = h
  after_calls-Bounded n (x ∷ xs) c h =
      after_calls-Bounded n xs (after_call x c) (after_call-Bounded n x c h)

  -- After any lookups, marks and clears, a preparation cache that was made with a capacity holds no
  -- more markers than that.
  pub after_calls-bounded :
      (capacity : ℕ) {c : PreparationCache K} (xs : List (Call K))
      → init capacity ≡ ok c
      → length (after_calls xs c).entries ≤ capacity
  unfolding Bounded init
  after_calls-bounded capacity {c} xs h = (after_calls-Bounded capacity xs c (ground (arith, h))).1
