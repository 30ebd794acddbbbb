-- ===== src/Drift/Window.antt =====
-- The reference window is the end of the history.
use congine.Drift.{
  Engine, init, append, add_reference, add_reference_samples, sample_count, is_full, reset,
}
use congine.Json.{ok}
use congine.Prelude.{
  ℕ, zero, suc, ◌≤◌, ◌≡◌, refl, sym, ap, ◌∙◌, List, [], ◌∷◌, ◌++◌, append_assoc, append-nil, arith,
  length, length-append, leb, ltb, if◌then◌else◌,
}

-- The calls that change an engine.
pub data Call (F : Type 0) : Type 0 where
  adds : F → Call F
  adds_all : List F → Call F
  resets : Call F

module _ {F : Type 0} where
  abbrev pub after : List (Call F) → Engine F → Engine F
  after [] e = e
  after (adds value ∷ calls) e = after calls (add_reference value e)
  after (adds_all values ∷ calls) e = after calls (add_reference_samples values e)
  after (resets ∷ calls) e = after calls (reset e)

  -- The abstract engine: all samples since the last reset, the oldest first.
  abbrev pub history : List (Call F) → List F → List F
  history [] h = h
  history (adds value ∷ calls) h = history calls (h ++ value ∷ [])
  history (adds_all values ∷ calls) h = history calls (h ++ values)
  history (resets ∷ calls) h = history calls []

  -- the last `n` of them
  unfoldable pub latest : ℕ → List F → List F
  latest n [] = []
  latest n (x ∷ xs) = let rest = latest n xs in if ltb n (length (x ∷ xs)) then rest else x ∷ xs

  latest-short : (n : ℕ) (xs : List F) → length xs ≤ n → latest n xs ≡ xs
  unfolding latest
  latest-short n [] h = refl
  latest-short n (x ∷ xs) h = ground (arith, h)

  append-latest :
      (n : ℕ) (v : F) (h : List F)
      → append (suc n) v (latest (suc n) h) ≡ latest (suc n) (h ++ v ∷ [])
  unfolding append latest
  append-latest n v [] = ground arith
  append-latest n v (x ∷ h) =
      ground
        (arith, append-latest n v h, length-append h (v ∷ []), latest-short (suc n) (h ++ v ∷ []))

  add_all-latest :
      (values : List F) (e : Engine F) (n : ℕ) (h : List F)
      → e.max_samples ≡ suc n
      → e.reference ≡ latest (suc n) h
      → ((add_reference_samples values e).max_samples ≡ suc n)
        × ((add_reference_samples values e).reference ≡ latest (suc n) (h ++ values))
  unfolding add_reference_samples add_reference
  add_all-latest [] e n h m r = (m, r ∙ ap (latest (suc n)) (sym (append-nil h)))
  add_all-latest (v ∷ values) e n h m r =
      let (m', r') =
        add_all-latest values (add_reference v e) n (h ++ v ∷ []) m
          (rw m (rw r (append-latest n v h))) in
      (m', r' ∙ ap (latest (suc n)) (append_assoc h (v ∷ []) values))

  after-latest :
      (calls : List (Call F)) (e : Engine F) (n : ℕ) (h : List F)
      → e.max_samples ≡ suc n
      → e.reference ≡ latest (suc n) h
      → ((after calls e).max_samples ≡ suc n)
        × ((after calls e).reference ≡ latest (suc n) (history calls h))
  unfolding add_reference reset latest
  after-latest [] e n h m r = (m, r)
  after-latest (adds v ∷ calls) e n h m r =
      after-latest calls (add_reference v e) n (h ++ v ∷ []) m (rw m (rw r (append-latest n v h)))
  after-latest (adds_all values ∷ calls) e n h m r =
      let (m', r') = add_all-latest values e n h m r in
      after-latest calls (add_reference_samples values e) n (h ++ values) m' r'
  after-latest (resets ∷ calls) e n h m r = after-latest calls (reset e) n [] m refl

  length-latest :
      (n : ℕ) (h : List F) → length (latest n h) ≡ (if ltb n (length h) then n else length h)
  unfolding latest
  length-latest n [] = ground arith
  length-latest n (x ∷ h) = ground (arith, length-latest n h)

  init-positive :
      (threshold : F) (n : ℕ) {e : Engine F}
      → init threshold n ≡ ok e
      → (m : ℕ) × (n ≡ suc m) × (e.max_samples ≡ suc m) × (e.reference ≡ [])
  unfolding init
  init-positive threshold zero h = absurd (ground (arith, h))
  init-positive threshold (suc m) h = (m, refl, ground (arith, h), ground (arith, h))

  -- The reference window refines its history: after any calls on a new engine, the window is the last
  -- `max_samples` of all the samples added since the last reset, in their order, `sample_count` is
  -- their number, and the engine is full exactly if there were as many samples as that.
  pub after-window :
      (threshold : F) (max_samples : ℕ) {e : Engine F} (calls : List (Call F))
      → init threshold max_samples ≡ ok e
      → let all = history calls [] in
        ((after calls e).reference ≡ latest max_samples all)
        × (sample_count (after calls e)
            ≡ (if ltb max_samples (length all) then max_samples else length all))
        × (is_full (after calls e) ≡ leb max_samples (length all))
  unfolding sample_count is_full latest
  after-window threshold max_samples {e} calls h =
      let (m, positive, cap, empty) = init-positive threshold max_samples h in
      let (cap', window) = after-latest calls e m [] cap empty in
      rw positive (
        window,
        ap length window ∙ length-latest (suc m) (history calls []),
        ground (arith, cap', ap length window ∙ length-latest (suc m) (history calls [])),
      )
