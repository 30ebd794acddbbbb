-- ===== src/Handler/Refusal.antt =====
-- What a final response is evaluated for, and what becomes of a refused run.
use congine.Dict.{get, remove, get-put, get-remove}
use congine.Handler.{
  RunState, State, Gate, opened, closed, broken, RunId, no_id, unhashable, key, Execution, gave,
  ours, others, returns, raises_refusal, first_reason, refuse_locked, collect, observe, run_of,
  record_result, record_failure, result_for, collect_token, token_of, on_llm_new_token, completion,
  evaluate, conclude, end_of, on_llm_end, reconcile,
}
use congine.Handler.Hosts.{Host, text, Inspection, accepts, refuses, crashes, ◌>>=◌, RefusalReason}
use congine.Handler.Inspect.{inspect_stream_observation, extract_complete_text}
use congine.Json.Text.{join}
use congine.Prelude.{
  ℕ, ◌≤◌, String, ◌≡◌, refl, sym, ap, ◌∙◌, subst, ◌⊎◌, inl, inr, Option, none, some, List, [], ◌∷◌,
  map, arith, Eq, ◌==◌, beq_refl, Bool-cases, Option-cases, string_eq,
}
use congine.Handler.Observed.{Whole, Held, total}
use congine.Handler.Streams.{Event, state_of, state_of-Whole, streamed}

-- What a run and the response must have shown for a text to be evaluated.
abbrev pub Established : (String → String) → List Host → Host → String → Type 0
Established strip_lower ts response x =
    (extract_complete_text strip_lower response ≡ accepts x)
    × ((ts ≡ []) ⊎ ((ps : List String) × (ts ≡ map text ps) × (join "" ps ≡ x)))

bind-accepts_iff :
    {A B : Type 0} (x : Inspection A) (f : A → Inspection B) {b : B}
    → (x >>= f) ≡ accepts b
    → (a : A) × (x ≡ accepts a) × (f a ≡ accepts b)
bind-accepts_iff (accepts a) f h = (a, refl, h)
bind-accepts_iff (refuses r) f h = absurd (ground (arith, h))
bind-accepts_iff crashes f h = absurd (ground (arith, h))

reconcile-accepts :
    (run : RunState) (t x : String)
    → reconcile (some run) t ≡ accepts x
    → (t ≡ x) × (join "" run.parts ≡ x)
unfolding reconcile
reconcile-accepts run t x h = elim (Bool-cases (join "" run.parts == t)) [
  | inl same ↦
      (ground (arith, h, same), ground (arith, h, (string_eq.beq_iff (join "" run.parts) t).0 same))
  | inr other ↦ absurd (ground (arith, h, other))
]

completion-refused :
    (strip_lower : String → String) (run : RunState) (response : Host) {reason : RefusalReason}
    → run.refusal_reason ≡ some reason
    → completion strip_lower (some run) response ≡ refuses reason
unfolding completion
completion-refused strip_lower run response h = rw h refl

completion-standing :
    (strip_lower : String → String) (run : RunState) (response : Host)
    → run.refusal_reason ≡ none
    → completion strip_lower (some run) response
      ≡ (extract_complete_text strip_lower response >>= reconcile (some run))
unfolding completion
completion-standing strip_lower run response h = rw h refl

refused_not_accepted :
    {A : Type 0} {r : RefusalReason} {a : A} → Path (Inspection A) (refuses r) (accepts a) → ⊥
refused_not_accepted h = ground (arith, h)

completion-Established :
    (strip_lower : String → String) (max_buffer : ℕ) (run : Option RunState) (ts : List Host)
    (response : Host) {x : String}
    → Whole max_buffer run ts
    → completion strip_lower run response ≡ accepts x
    → Established strip_lower ts response x
unfolding completion Whole Held reconcile
completion-Established strip_lower max_buffer none ts response w h =
    let (t, e, same) = bind-accepts_iff (extract_complete_text strip_lower response) accepts h in
    (e ∙ same, inl w)
completion-Established strip_lower max_buffer (some run) ts response (l, b, w) h =
    elim (Option-cases run.refusal_reason) [
      | inr (r, e) ↦
          absurd (refused_not_accepted (sym (completion-refused strip_lower run response e) ∙ h))
      | inl standing ↦
          let (t, given, same) =
            bind-accepts_iff (extract_complete_text strip_lower response) (reconcile (some run))
              (sym (completion-standing strip_lower run response standing) ∙ h) in
          let (t≡x, joined) = reconcile-accepts run t _ same in
          (
            given ∙ ap accepts t≡x,
            inr (run.parts, sym (subst (λ o. Held o run.parts ts) standing w), joined),
          )
    ]

observe-refused :
    (max_buffer : ℕ) (run : RunState) (seen : Inspection String) {reason : RefusalReason}
    → run.refusal_reason ≡ some reason
    → (observe max_buffer run seen).1.refusal_reason ≡ some reason
unfolding observe collect refuse_locked first_reason
observe-refused max_buffer run (accepts t) h = rw h refl
observe-refused max_buffer run (refuses r) h = rw h refl
observe-refused max_buffer run crashes h = h

module _ {K R : Type 0} ⦃e : Eq K⦄ where
  run_of-found :
      (k : K) (st : State K R) {run : RunState} → get k st.runs ≡ some run → run_of k st ≡ run
  unfolding run_of
  run_of-found k st h = rw (run_of, h) refl

  evaluate-gave :
      (k : K) (x : Execution R) (st : State K R) {r : R}
      → (evaluate k x st).0 ≡ returns (some r)
      → x ≡ gave r
  unfolding evaluate
  evaluate-gave k (gave r) st h = ground (arith, h)
  evaluate-gave k ours st h = absurd (ground (arith, h))
  evaluate-gave k others st h = absurd (ground (arith, h))

module _ {K R : Type 0} ⦃e : Eq K⦄ (strip_lower : String → String) (max_buffer : ℕ) where
  -- No partial output is evaluated: after any callbacks on any runs, if the end of a run returns a
  -- result, then it is what the use case gave for the complete text of the final response, and if the
  -- run streamed, every token observed since the run last ended was text, and the tokens put together
  -- are that text.
  pub on_llm_end-whole :
      (xs : List (Event K R)) (k : K) (response : Host) (execute : String → Execution R) {r : R}
      → (on_llm_end strip_lower opened
          (key k)
          response
          execute
          (state_of strip_lower max_buffer xs)).0
        ≡ returns (some r)
      → (x : String) × (execute x ≡ gave r) × Established strip_lower (streamed k xs) response x
  unfolding on_llm_end end_of
  on_llm_end-whole xs k response execute {r} h =
      go (completion strip_lower (get k st.runs) response) refl h
    where
      st : State K R
      st = state_of strip_lower max_buffer xs

      go :
          (done : Inspection String)
          → completion strip_lower (get k st.runs) response ≡ done
          → (conclude k done execute (record st { runs = remove k st.runs })).0 ≡ returns (some r)
          → (x : String) × (execute x ≡ gave r) × Established strip_lower (streamed k xs) response x
      go (accepts x) done g = (
        x,
        evaluate-gave k (execute x) _ (unfold conclude in g),
        completion-Established strip_lower max_buffer (get k st.runs) (streamed k xs) response
            (state_of-Whole strip_lower max_buffer k xs) done,
      )
      go (refuses reason) done g = absurd (unfold conclude in ground (arith, g))
      go crashes done g = absurd (unfold conclude in ground (arith, g))

  -- The buffer of a stream is bounded: after any callbacks on any runs, a run that is active counts the
  -- characters of the parts it holds, and these are at most `max_stream_buffer_chars`.
  pub state_of-bounded :
      (xs : List (Event K R)) (k : K) {run : RunState}
      → get k (state_of strip_lower max_buffer xs).runs ≡ some run
      → (run.length ≡ total run.parts) × (run.length ≤ max_buffer)
  unfolding Whole
  state_of-bounded xs k h =
      let (l, b, w) =
        subst (λ run. Whole max_buffer run (streamed k xs)) h
          (state_of-Whole strip_lower max_buffer k xs) in
      (l, b)

  abbrev pub after_tokens : List (Gate × RunId K × Host × Host) → State K R → State K R
  after_tokens [] st = st
  after_tokens ((gate, id, token, chunk) ∷ more) st =
      after_tokens more (on_llm_new_token strip_lower max_buffer gate id token chunk st).1

  abbrev Refused : K → RefusalReason → State K R → Type 0
  Refused k reason st =
      (run : RunState) × (get k st.runs ≡ some run) × (run.refusal_reason ≡ some reason)

  token-Refused :
      (k : K) (reason : RefusalReason) (gate : Gate) (id : RunId K) (token chunk : Host)
      (st : State K R)
      → Refused k reason st
      → Refused k reason (on_llm_new_token strip_lower max_buffer gate id token chunk st).1
  unfolding on_llm_new_token token_of collect_token
  token-Refused k reason opened (key j) token chunk st (run, found, h) =
      elim (Bool-cases (j == k)) [
        | inl same ↦
            let found_j =
              subst (λ i. get i st.runs ≡ some run) (sym ((e.beq_iff j k).0 same)) found in
            (
              (observe max_buffer (run_of j st)
                  (inspect_stream_observation strip_lower token chunk)).1,
              get-put j k _ st.runs ∙ rw same refl,
              observe-refused max_buffer _ _
                  (ap (λ x. x.refusal_reason) (run_of-found j st found_j) ∙ h),
            )
        | inr other ↦ (run, rw (get-put j k _ st.runs) (rw other found), h)
      ]
  token-Refused k reason opened no_id token chunk st h = h
  token-Refused k reason opened unhashable token chunk st h = h
  token-Refused k reason closed id token chunk st h = h
  token-Refused k reason broken id token chunk st h = h

  tokens-Refused :
      (k : K) (reason : RefusalReason) (more : List (Gate × RunId K × Host × Host)) (st : State K R)
      → Refused k reason st
      → Refused k reason (after_tokens more st)
  tokens-Refused k reason [] st h = h
  tokens-Refused k reason ((gate, id, token, chunk) ∷ more) st h =
      tokens-Refused k reason more _ (token-Refused k reason gate id token chunk st h)

  -- A refusal is sticky: once a run is refused for a reason, then whatever tokens are observed
  -- afterwards on this run and on others, the end of the run raises that reason, whatever the final
  -- response and the use case, and leaves no active run and no result under its id.
  pub refused-sticky :
      (k : K) (st : State K R) {run : RunState} {reason : RefusalReason}
      → get k st.runs ≡ some run
      → run.refusal_reason ≡ some reason
      → (more : List (Gate × RunId K × Host × Host)) (response : Host)
        (execute : String → Execution R)
      → let (reply, st') =
          on_llm_end strip_lower opened (key k) response execute (after_tokens more st) in
        (reply ≡ raises_refusal reason) × (get k st'.runs ≡ none) × (result_for k st' ≡ none)
  unfolding on_llm_end end_of conclude record_failure record_result result_for
  refused-sticky k st {run} {reason} found h more response execute =
      let (run', found', h') = tokens-Refused k reason more st (run, found, h) in
      rw found' (
        rw (completion-refused strip_lower run' response h')
          (refl, get-remove k k _ ∙ rw (beq_refl k) refl, get-remove k k _ ∙ rw (beq_refl k) refl))
