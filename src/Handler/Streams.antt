-- ===== src/Handler/Streams.antt =====
-- What the handler's runs hold, whatever callbacks came before and in whatever order of runs.
use congine.Dict.{get, remove, get-put, get-remove}
use congine.Handler.{
  State, Gate, opened, closed, broken, RunId, no_id, unhashable, key, Execution, gave, ours, others,
  observe, run_of, record_result, record_failure, collect_token, token_of, on_llm_new_token,
  evaluate, conclude, end_of, on_llm_end, error_of, on_llm_error,
}
use congine.Handler.Hosts.{Host, Inspection, accepts, refuses, crashes}
use congine.Handler.Inspect.{inspect_stream_observation}
use congine.Prelude.{
  ℕ, String, ◌≡◌, refl, sym, subst, inl, inr, Option, none, some, List, [], ◌∷◌, ◌++◌, arith, Eq,
  ◌==◌, if◌then◌else◌, Bool-cases, Option-cases, string_eq,
}
use congine.Handler.Observed.{Whole, Held, observe-Whole}

-- A callback, with the container's answer, and for an end what the use case makes of a text.
pub data Event (K R : Type 0) : Type 0 where
  observes : Gate → RunId K → Host → Host → Event K R
  finishes : Gate → RunId K → Host → (String → Execution R) → Event K R
  errs : Gate → RunId K → Event K R

module _ {K R : Type 0} ⦃e : Eq K⦄ (strip_lower : String → String) (max_buffer : ℕ) where
  abbrev pub after : Event K R → State K R → State K R
  after (observes gate id token chunk) st =
      (on_llm_new_token strip_lower max_buffer gate id token chunk st).1
  after (finishes gate id response execute) st =
      (on_llm_end strip_lower gate id response execute st).1
  after (errs gate id) st = (on_llm_error gate id st).1

  -- the state after callbacks, the latest first
  abbrev pub state_of : List (Event K R) → State K R
  state_of [] = record { runs = []; results = []; last_result = none }
  state_of (x ∷ xs) = after x (state_of xs)

-- The tokens that were observed on a run since it last ended, the earliest first.
module _ {K R : Type 0} ⦃e : Eq K⦄ where
  unfoldable pub streamed : K → List (Event K R) → List Host
  streamed k [] = []
  streamed k (observes opened (key j) token chunk ∷ xs) =
      let before = streamed k xs in if j == k then before ++ token ∷ [] else before
  streamed k (finishes opened (key j) response execute ∷ xs) =
      let before = streamed k xs in if j == k then [] else before
  streamed k (errs opened (key j) ∷ xs) =
      let before = streamed k xs in if j == k then [] else before
  streamed k (_ ∷ xs) = streamed k xs

run_of-Whole :
    {K R : Type 0} ⦃e : Eq K⦄ (max_buffer : ℕ) (k : K) (st : State K R) (ts : List Host)
    → Whole max_buffer (get k st.runs) ts
    → Whole max_buffer (some (run_of k st)) ts
unfolding Whole Held run_of
run_of-Whole max_buffer k st ts w = elim (Option-cases (get k st.runs)) [
  | inl absent ↦
      rw (run_of, absent) (refl, omega arith, sym (subst (λ o. Whole max_buffer o ts) absent w))
  | inr (run, found) ↦ rw (run_of, found) (subst (λ o. Whole max_buffer o ts) found w)
]

module _ {K R : Type 0} ⦃e : Eq K⦄ (strip_lower : String → String) (max_buffer : ℕ) where
  record_result-runs :
      (k : K) (r : Option R) (st : State K R) → (record_result k r st).runs ≡ st.runs
  unfolding record_result
  record_result-runs k none st = refl
  record_result-runs k (some r) st = refl

  evaluate-runs : (k : K) (x : Execution R) (st : State K R) → (evaluate k x st).1.runs ≡ st.runs
  unfolding evaluate
  evaluate-runs k (gave r) st = record_result-runs k (some r) st
  evaluate-runs k ours st = record_result-runs k none st
  evaluate-runs k others st = record_result-runs k none st

  conclude-runs :
      (k : K) (done : Inspection String) (execute : String → Execution R) (st : State K R)
      → (conclude k done execute st).1.runs ≡ st.runs
  unfolding conclude record_failure
  conclude-runs k (accepts t) execute st = evaluate-runs k (execute t) st
  conclude-runs k (refuses r) execute st = record_result-runs k none st
  conclude-runs k crashes execute st = refl

  end_of-runs :
      (k : K) (response : Host) (execute : String → Execution R) (st : State K R)
      → (end_of strip_lower (key k) response execute st).1.runs ≡ remove k st.runs
  unfolding end_of
  end_of-runs k response execute st = conclude-runs k _ execute _

  observed-Whole :
      (k j : K) (token chunk : Host) (st : State K R) (ts : List Host)
      → Whole max_buffer (get k st.runs) ts
      → Whole max_buffer
          (get k (collect_token strip_lower max_buffer j token chunk st).1.runs)
          (if j == k then ts ++ token ∷ [] else ts)
  unfolding collect_token
  observed-Whole k j token chunk st ts w =
      rw
        (get-put j k
          (observe max_buffer (run_of j st) (inspect_stream_observation strip_lower token chunk)).1
          st.runs)
        (elim (Bool-cases (j == k)) [
          | inl same ↦ rw same (
              observe-Whole max_buffer strip_lower (run_of j st) token chunk ts (
                run_of-Whole max_buffer j st ts (
                  subst (λ i. Whole max_buffer (get i st.runs) ts) (sym ((e.beq_iff j k).0 same))
                    w)))
          | inr other ↦ rw other w
        ])

  removed-Whole :
      (k j : K) (st : State K R) (ts : List Host)
      → Whole max_buffer (get k st.runs) ts
      → Whole max_buffer (get k (remove j st.runs)) (if j == k then [] else ts)
  unfolding Whole
  removed-Whole k j st ts w =
      rw (get-remove j k st.runs)
        (elim (Bool-cases (j == k)) [ inl same ↦ rw same refl | inr other ↦ rw other w ])

  pub state_of-Whole :
      (k : K) (xs : List (Event K R))
      → Whole max_buffer (get k (state_of strip_lower max_buffer xs).runs) (streamed k xs)
  unfolding streamed on_llm_new_token on_llm_end on_llm_error token_of error_of
  state_of-Whole k [] = unfold get Whole in refl
  state_of-Whole k (observes opened (key j) token chunk ∷ xs) =
      observed-Whole k j token chunk (state_of strip_lower max_buffer xs) (streamed k xs)
        (state_of-Whole k xs)
  state_of-Whole k (observes opened no_id token chunk ∷ xs) = state_of-Whole k xs
  state_of-Whole k (observes opened unhashable token chunk ∷ xs) = state_of-Whole k xs
  state_of-Whole k (observes closed id token chunk ∷ xs) = state_of-Whole k xs
  state_of-Whole k (observes broken id token chunk ∷ xs) = state_of-Whole k xs
  state_of-Whole k (finishes opened (key j) response execute ∷ xs) =
      rw (end_of-runs j response execute (state_of strip_lower max_buffer xs)) (
        removed-Whole k j (state_of strip_lower max_buffer xs) (streamed k xs)
          (state_of-Whole k xs))
  state_of-Whole k (finishes opened no_id response execute ∷ xs) =
      unfold end_of record_failure in state_of-Whole k xs
  state_of-Whole k (finishes opened unhashable response execute ∷ xs) =
      unfold end_of record_failure in state_of-Whole k xs
  state_of-Whole k (finishes closed id response execute ∷ xs) = state_of-Whole k xs
  state_of-Whole k (finishes broken id response execute ∷ xs) = state_of-Whole k xs
  state_of-Whole k (errs opened (key j) ∷ xs) =
      removed-Whole k j (state_of strip_lower max_buffer xs) (streamed k xs) (state_of-Whole k xs)
  state_of-Whole k (errs opened no_id ∷ xs) = state_of-Whole k xs
  state_of-Whole k (errs opened unhashable ∷ xs) = state_of-Whole k xs
  state_of-Whole k (errs closed id ∷ xs) = state_of-Whole k xs
  state_of-Whole k (errs broken id ∷ xs) = state_of-Whole k xs
