-- ===== src/Handler/Inspect.antt =====
-- The functions of libs/congine-sdk/src/congine_core/adapters/langchain_handler.py that inspect what
-- LangChain hands over, as far as the final text.
use congine.Prelude.{
  String, not, Option, none, some, List, [], ◌∷◌, ◌==◌, string_eq, nat_beq, count, if◌then◌else◌,
  contains,
}
use congine.Handler.Hosts.{
  Host, Entries, nothing, text, sequence, mapping, member, last, item, blank, entry, RefusalReason,
  non_text_stream_token, unsupported_stream_chunk, stream_token_chunk_mismatch,
  missing_final_response, malformed_final_response, no_generation, multiple_generation_groups,
  multiple_generations, non_text_content, text_message_mismatch, tool_or_action_content,
  unsupported_message_metadata, output_truncated, output_incomplete, unknown_termination,
  Inspection, accepts, refuses, ◌>>=◌, guarded, getattr, getattr_or_none, get, is_present,
  refuse_if, action_fields, action_kwargs, complete_terminations, truncated_terminations,
  incomplete_terminations,
}

-- the action fields of a message
no_action_fields : RefusalReason → List String → Host → Inspection (Unit {0})
unfolding getattr_or_none is_present
no_action_fields malformed [] message = accepts tt
no_action_fields malformed (name ∷ names) message = do
  value ← getattr_or_none name message
  there ← is_present malformed value
  done ← refuse_if tool_or_action_content there
  no_action_fields malformed names message

-- the action keys of a mapping
no_action_keys : RefusalReason → List String → Entries → Inspection (Unit {0})
unfolding get is_present
no_action_keys malformed [] es = accepts tt
no_action_keys malformed (key ∷ keys) es = do
  there ← is_present malformed (get key es)
  done ← refuse_if tool_or_action_content there
  no_action_keys malformed keys es

-- `for value in extra.values()`
no_values : RefusalReason → Entries → Inspection (Unit {0})
unfolding is_present
no_values malformed blank = accepts tt
no_values malformed (entry key value es) = do
  there ← is_present malformed value
  done ← refuse_if unsupported_message_metadata there
  no_values malformed es

-- the part of `_inspect_message` on `additional_kwargs`
inspect_kwargs : RefusalReason → Host → Inspection (Unit {0})
unfolding no_action_keys no_values
inspect_kwargs malformed nothing = accepts tt
inspect_kwargs malformed (mapping es) = do
  done ← no_action_keys malformed action_kwargs es
  no_values malformed es
inspect_kwargs malformed _ = refuses malformed

-- `if not isinstance(x, str): raise _Refusal(reason)`
abbrev require_text : RefusalReason → Option Host → Inspection String
require_text reason (some (text s)) = accepts s
require_text reason _ = refuses reason

module _ (strip_lower : String → String) where
  abbrev normalized : String → Option String
  normalized s = if nat_beq (count (strip_lower s)) 0 then none else some (strip_lower s)

  -- `_normalize_termination`
  normalize_termination : RefusalReason → Host → Inspection (Option String)
  normalize_termination malformed nothing = accepts none
  normalize_termination malformed (text s) = accepts (normalized s)
  normalize_termination malformed (member (some value) name) = accepts (normalized value)
  normalize_termination malformed (member none name) = accepts (normalized name)
  normalize_termination malformed _ = refuses malformed

  abbrev judge_termination : Option String → Inspection (Unit {0})
  judge_termination none = accepts tt
  judge_termination (some t) =
      if contains t complete_terminations
      then accepts tt
      else if contains t truncated_terminations
      then refuses output_truncated
      else if contains t incomplete_terminations
      then refuses output_incomplete
      else refuses unknown_termination

  -- `_check_termination`
  unfoldable pub check_termination : RefusalReason → Host → Inspection (Unit {0})
  unfolding normalize_termination get
  check_termination malformed nothing = accepts tt
  check_termination malformed (mapping es) = do
    finish ← normalize_termination malformed (get "finish_reason" es)
    done ← judge_termination finish
    stop ← normalize_termination malformed (get "stop_reason" es)
    judge_termination stop
  check_termination malformed _ = refuses malformed

  -- `_inspect_message`
  unfoldable pub inspect_message : RefusalReason → Host → Inspection String
  unfolding no_action_fields inspect_kwargs getattr getattr_or_none check_termination
  inspect_message malformed message = do
    plain ← no_action_fields malformed action_fields message
    extra ← getattr_or_none "additional_kwargs" message
    clear ← inspect_kwargs malformed extra
    found ← getattr "content" message
    content ← require_text non_text_content found
    metadata ← getattr_or_none "response_metadata" message
    complete ← check_termination malformed metadata
    accepts content

  -- the text of a chunk, whose message is given
  abbrev chunk_text : Host → Host → Inspection String
  chunk_text chunk nothing = do
    found ← getattr "text" chunk
    require_text unsupported_stream_chunk found
  chunk_text chunk message = inspect_message unsupported_stream_chunk message

  inspect_chunk : String → Host → Inspection (Unit {0})
  unfolding getattr getattr_or_none inspect_message check_termination
  inspect_chunk token nothing = accepts tt
  inspect_chunk token chunk = do
    message ← getattr_or_none "message" chunk
    said ← chunk_text chunk message
    same ← refuse_if stream_token_chunk_mismatch (not (said == token))
    info ← getattr_or_none "generation_info" chunk
    check_termination unsupported_stream_chunk info

  -- `_inspect_stream_observation`, which answers the token's text
  unfoldable pub inspect_stream_observation : Host → Host → Inspection String
  unfolding inspect_chunk guarded
  inspect_stream_observation (text token) chunk =
      guarded unsupported_stream_chunk (do plain ← inspect_chunk token chunk; accepts token)
  inspect_stream_observation _ chunk = refuses non_text_stream_token

  -- `_inspect_llm_output`
  unfoldable pub inspect_llm_output : Host → Inspection (Unit {0})
  unfolding no_action_keys check_termination guarded
  inspect_llm_output nothing = accepts tt
  inspect_llm_output (mapping es) = guarded malformed_final_response (do
    fields ← no_action_keys malformed_final_response action_fields es
    kwargs ← no_action_keys malformed_final_response action_kwargs es
    check_termination malformed_final_response (mapping es))
  inspect_llm_output _ = refuses malformed_final_response

  -- the one element of a list or a tuple
  abbrev only : RefusalReason → Option Host → Inspection Host
  only several (some (sequence last)) = refuses no_generation
  only several (some (sequence (item x last))) = accepts x
  only several (some (sequence (item x (item y xs)))) = refuses several
  only several _ = refuses malformed_final_response

  -- `isinstance(text, str) and text != complete`
  abbrev agree : Option Host → String → Inspection String
  agree (some (text s)) complete =
      if s == complete then accepts complete else refuses text_message_mismatch
  agree _ complete = accepts complete

  abbrev generation_text : Option Host → Host → Inspection String
  generation_text said nothing = require_text non_text_content said
  generation_text said message = do
    complete ← inspect_message malformed_final_response message
    agree said complete

  extract_generation : Host → Host → Inspection String
  unfolding getattr getattr_or_none inspect_message check_termination inspect_llm_output
  extract_generation response generation = do
    said ← getattr "text" generation
    message ← getattr_or_none "message" generation
    complete ← generation_text said message
    info ← getattr_or_none "generation_info" generation
    checked ← check_termination malformed_final_response info
    output ← getattr_or_none "llm_output" response
    counted ← inspect_llm_output output
    accepts complete

  -- `_extract_complete_text`
  unfoldable pub extract_complete_text : Host → Inspection String
  unfolding getattr extract_generation guarded
  extract_complete_text nothing = refuses missing_final_response
  extract_complete_text response = guarded malformed_final_response (do
    generations ← getattr "generations" response
    group ← only multiple_generation_groups generations
    generation ← only multiple_generations (some group)
    extract_generation response generation)
