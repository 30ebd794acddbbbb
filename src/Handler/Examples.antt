-- ===== src/Handler/Examples.antt =====
-- Concrete callbacks: two runs whose tokens are interleaved, and a run that is refused.
use congine.Dict.{get, put, remove}
use congine.Handler.{
  RunState, State, opened, key, Execution, gave, returns, raises_refusal, on_llm_new_token,
  on_llm_end, result_for, new_run,
}
use congine.Handler.Hosts.{
  Host, text, nothing, sequence, object, item, last, unsized, attribute, bare, mapping, entry,
  blank, output_truncated, stream_buffer_exceeded,
}
use congine.Handler.Inspect.{extract_complete_text, inspect_stream_observation}
use congine.Handler.Observed.{total}
use congine.Handler.Refusal.{
  Established, after_tokens, on_llm_end-whole, state_of-bounded, refused-sticky,
}
use congine.Handler.Streams.{Event, observes, state_of, streamed}
use congine.Json.Text.{join}
use congine.Prelude.{
  ℕ, ◌≤◌, String, ◌≡◌, refl, none, some, List, [], ◌∷◌, string_eq, count, contains,
}

abbrev same_text : String → String
same_text s = s

-- one generation, of a text and a finish reason
abbrev response : String → String → Host
response said reason = object unsized (
    attribute "generations"
      (sequence (
        item
          (sequence (
            item
              (object unsized (
                attribute "text" (text said) (
                  attribute "generation_info" (mapping (entry "finish_reason" (text reason) blank))
                    bare)))
              last))
          last))
      bare)

abbrev history : List (Event String ℕ)
history =
    observes opened (key "a") (text "lo") nothing
    ∷ observes opened (key "b") (text "other") nothing
    ∷ observes opened (key "a") (text "hel") nothing
    ∷ []

-- the use case, which answers with the length of a text
abbrev execute : String → Execution ℕ
execute s = gave (count s)

callback_code : Unit {0}
unfolding on_llm_new_token on_llm_end extract_complete_text inspect_stream_observation get put
    remove join streamed
callback_code = tt

truncated :
    (on_llm_end same_text opened
      (key "a")
      (response "hello" "length")
      execute
      (state_of same_text 8 history)).0
    ≡ raises_refusal output_truncated
unfolding callback_code contains
truncated = refl

evaluated :
    (on_llm_end same_text opened
      (key "a")
      (response "hello" "stop")
      execute
      (state_of same_text 8 history)).0
    ≡ returns (some 5)
unfolding callback_code contains
evaluated = refl

on_llm_end-whole_example :
    (x : String) × (execute x ≡ gave 5)
    × Established same_text (streamed "a" history) (response "hello" "stop") x
on_llm_end-whole_example =
    on_llm_end-whole same_text 8 history "a" (response "hello" "stop") execute evaluated

abbrev run_a : RunState
run_a = record new_run { parts = "hel" ∷ "lo" ∷ []; length = 5 }

held : get "a" (state_of same_text 8 history).runs ≡ some run_a
unfolding callback_code contains
held = refl

state_of-bounded_example : (5 ≡ total ("hel" ∷ "lo" ∷ [])) × (5 ≤ 8)
state_of-bounded_example = state_of-bounded same_text 8 history "a" held

abbrev overflowed : State String ℕ
overflowed = record {
  runs = ("a", record new_run { refusal_reason = some stream_buffer_exceeded }) ∷ [];
  results = [];
  last_result = none;
}

refused-sticky_example :
    let (reply, st') =
      on_llm_end same_text opened
        (key "a")
        (response "" "stop")
        execute
        (after_tokens same_text 8 ((opened, key "a", text "", nothing) ∷ []) overflowed) in
    (reply ≡ raises_refusal stream_buffer_exceeded)
    × (get "a" st'.runs ≡ none)
    × (result_for "a" st' ≡ none)
unfolding get
refused-sticky_example =
    refused-sticky same_text 8 "a" overflowed refl refl ((opened, key "a", text "", nothing) ∷ [])
      (response "" "stop") execute
