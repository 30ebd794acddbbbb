-- ===== src/Handler.antt =====
-- libs/congine-sdk/src/congine_core/adapters/langchain_handler.py: the callback handler. Its runs and
-- results are Python dicts; each section under the lock is one step, and callbacks do not overlap. The
-- container's answer to `ensure_open` and the use case's answer come with a callback. Log records are
-- left out.
pub mod Hosts
pub mod Inspect
pub mod Observed
pub mod Streams
pub mod Refusal
mod Examples
use congine.Dict.{Dict, get, put, remove}
use congine.Json.Text.{join}
use congine.Prelude.{
  ℕ, ◌+◌, String, Bool, true, false, Option, none, some, List, [], ◌∷◌, ◌++◌, ◌==◌, Eq, string_eq,
  ltb, count, if◌then◌else◌,
}
use Hosts.{
  Host, RefusalReason, missing_run_id, unhashable_run_id, stream_buffer_exceeded,
  stream_final_mismatch, Inspection, accepts, refuses, crashes, ◌>>=◌,
}
use Inspect.{inspect_stream_observation, extract_complete_text}

-- `_RunStatus`
pub data RunStatus : Type 0 where
  collecting_text refused : RunStatus

-- `_RunState`
pub record RunState : Type 0 where
  pub parts : List String
  pub length : ℕ
  pub status : RunStatus
  pub refusal_reason : Option RefusalReason

abbrev pub new_run : RunState
new_run = record { parts = []; length = 0; status = collecting_text; refusal_reason = none }

pub record State (K R : Type 0) : Type 0 where
  pub runs : Dict K RunState
  pub results : Dict K R
  pub last_result : Option R

-- What `ensure_open` of the container does: it returns, raises an error of the library's own, or fails.
pub data Gate : Type 0 where
  opened closed broken : Gate

-- `run_id`: `None`, a value that cannot be hashed, or a key
pub data RunId (K : Type 0) : Type 0 where
  no_id unhashable : RunId K
  key : K → RunId K

-- What the use case does: it answers, raises an error of the library's own, or fails.
pub data Execution (R : Type 0) : Type 0 where
  gave : R → Execution R
  ours others : Execution R

-- What a callback does: it returns, raises a refusal, or raises an error of the library's own.
pub data Reply (R : Type 0) : Type 0 where
  returns : Option R → Reply R
  raises_refusal : RefusalReason → Reply R
  raises_ours : Reply R

-- `_require_run_key`
unfoldable pub require_run_key : {K : Type 0} → RunId K → Inspection K
require_run_key no_id = refuses missing_run_id
require_run_key unhashable = refuses unhashable_run_id
require_run_key (key k) = accepts k

-- `_refuse_locked`: the first reason, and the run it leaves
unfoldable pub first_reason : RunState → RefusalReason → RefusalReason
first_reason run reason = elim run.refusal_reason [ none ↦ reason | some first ↦ first ]

unfoldable pub refuse_locked : RunState → RefusalReason → RunState
unfolding first_reason
refuse_locked run reason = record {
  parts = [];
  length = 0;
  status = refused;
  refusal_reason = some (first_reason run reason);
}

-- the body of `_collect_token` for a run and the text of a token: the standing refusal, and the run
unfoldable pub collect : ℕ → RunState → String → Option RefusalReason × RunState
unfolding first_reason refuse_locked
collect max_buffer run token = elim run.refusal_reason [
  | some reason ↦ (some reason, run)
  | none ↦
      if ltb max_buffer (run.length + count token)
      then (
        some (first_reason run stream_buffer_exceeded),
        refuse_locked run stream_buffer_exceeded,
      )
      else (none, record run { parts = run.parts ++ token ∷ []; length = run.length + count token })
]

-- what one observation does to its run
unfoldable pub observe : ℕ → RunState → Inspection String → Option RefusalReason × RunState
unfolding collect first_reason refuse_locked
observe max_buffer run (accepts token) = collect max_buffer run token
observe max_buffer run (refuses reason) = (some (first_reason run reason), refuse_locked run reason)
observe max_buffer run crashes = (some unhashable_run_id, run)

abbrev pub reply_of : {R : Type 0} → Option RefusalReason → Reply R
reply_of none = returns none
reply_of (some reason) = raises_refusal reason

-- `final_text`, unless it differs from what the run streamed
unfoldable pub reconcile : Option RunState → String → Inspection String
reconcile none final_text = accepts final_text
reconcile (some run) final_text =
    if join "" run.parts == final_text then accepts final_text else refuses stream_final_mismatch

abbrev standing_refusal : Option RunState → Inspection (Unit {0})
standing_refusal none = accepts tt
standing_refusal (some run) = elim run.refusal_reason [
  | none ↦ accepts tt
  | some reason ↦ refuses reason
]

-- `_establish_completion`, once the run is taken out
unfoldable pub completion : (String → String) → Option RunState → Host → Inspection String
unfolding reconcile
completion strip_lower run response = do
  sound ← standing_refusal run
  final_text ← extract_complete_text strip_lower response
  reconcile run final_text

module _ {K R : Type 0} ⦃e : Eq K⦄ where
  -- `setdefault(key, _RunState())`
  unfoldable pub run_of : K → State K R → RunState
  run_of k st = elim (get k st.runs) [ none ↦ new_run | some run ↦ run ]

  -- `_record_result`
  unfoldable pub record_result : K → Option R → State K R → State K R
  record_result k none st = record st { results = remove k st.results; last_result = none }
  record_result k (some r) st = record st { results = put k r st.results; last_result = some r }

  -- `_best_effort_record_failure`, whose key may be none
  unfoldable pub record_failure : RunId K → State K R → State K R
  unfolding record_result
  record_failure (key k) st = record_result k none st
  record_failure _ st = record st { last_result = none }

  -- `result_for`
  unfoldable pub result_for : K → State K R → Option R
  result_for k st = get k st.results

  abbrev without_run : K → State K R → State K R
  without_run k st = record st { runs = remove k st.runs }

  -- `_evaluate`
  unfoldable pub evaluate : K → Execution R → State K R → Reply R × State K R
  unfolding record_result
  evaluate k (gave r) st = (returns (some r), record_result k (some r) st)
  evaluate k ours st = (raises_ours, record_result k none st)
  evaluate k others st = (returns none, record_result k none st)

  -- how a completion ends, given the use case on its text
  unfoldable pub conclude :
      K → Inspection String → (String → Execution R) → State K R → Reply R × State K R
  unfolding evaluate record_failure
  conclude k (accepts text) execute st = evaluate k (execute text) st
  conclude k (refuses reason) execute st = (raises_refusal reason, record_failure (key k) st)
  conclude k crashes execute st = (raises_refusal unhashable_run_id, record_failure no_id st)

  -- `on_llm_error`: a run id that cannot be hashed fails before anything is changed
  unfoldable pub error_of : RunId K → State K R → State K R
  error_of no_id st = record st { last_result = none }
  error_of unhashable st = st
  error_of (key k) st = record {
    runs = remove k st.runs;
    results = remove k st.results;
    last_result = none;
  }

  unfoldable pub on_llm_error : Gate → RunId K → State K R → Reply R × State K R
  unfolding error_of
  on_llm_error opened run_id st = (returns none, error_of run_id st)
  on_llm_error closed run_id st = (raises_ours, st)
  on_llm_error broken run_id st = (returns none, st)

module _ {K R : Type 0} ⦃e : Eq K⦄ (strip_lower : String → String) (max_buffer : ℕ) where
  -- `_collect_token`
  unfoldable pub collect_token : K → Host → Host → State K R → Option RefusalReason × State K R
  unfolding observe run_of
  collect_token k token chunk st =
      let (standing, run) =
        observe max_buffer (run_of k st) (inspect_stream_observation strip_lower token chunk) in
      (standing, record st { runs = put k run st.runs })

  unfoldable pub token_of : RunId K → Host → Host → State K R → Option RefusalReason × State K R
  unfolding collect_token
  token_of (key k) token chunk st = collect_token k token chunk st
  token_of no_id token chunk st = (some missing_run_id, st)
  token_of unhashable token chunk st = (some unhashable_run_id, st)

  -- `on_llm_new_token`
  unfoldable pub on_llm_new_token : Gate → RunId K → Host → Host → State K R → Reply R × State K R
  unfolding token_of
  on_llm_new_token opened run_id token chunk st =
      let (standing, st') = token_of run_id token chunk st in (reply_of standing, st')
  on_llm_new_token closed run_id token chunk st = (raises_ours, st)
  on_llm_new_token broken run_id token chunk st = (returns none, st)

module _ {K R : Type 0} ⦃e : Eq K⦄ (strip_lower : String → String) where
  unfoldable pub end_of : RunId K → Host → (String → Execution R) → State K R → Reply R × State K R
  unfolding completion conclude record_failure
  end_of (key k) response execute st =
      conclude k (completion strip_lower (get k st.runs) response) execute (without_run k st)
  end_of no_id response execute st = (raises_refusal missing_run_id, record_failure no_id st)
  end_of unhashable response execute st =
      (raises_refusal unhashable_run_id, record_failure no_id st)

  -- `on_llm_end`
  unfoldable pub on_llm_end :
      Gate → RunId K → Host → (String → Execution R) → State K R → Reply R × State K R
  unfolding end_of
  on_llm_end opened run_id response execute st = end_of run_id response execute st
  on_llm_end closed run_id response execute st = (raises_ours, st)
  on_llm_end broken run_id response execute st = (returns none, st)
