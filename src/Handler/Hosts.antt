-- ===== src/Handler/Hosts.antt =====
-- The objects that LangChain hands to libs/congine-sdk/src/congine_core/adapters/langchain_handler.py,
-- and the functions of that file that inspect them. An object of the host is what Python's tests and
-- reads answer of it; reading an attribute or a length can raise. `s.strip().lower()` is a parameter.
use congine.Prelude.{
  ℕ, String, Bool, true, false, not, Option, none, some, List, [], ◌∷◌, ◌==◌, string_eq, nat_beq,
  count, if◌then◌else◌,
}

pub data Sizing : Type 0 where
  unsized failing_len : Sizing
  sized : ℕ → Sizing

mutual
  pub data Host : Type 0 where
    nothing : Host
    text : String → Host
    -- a list or a tuple
    sequence : Hosts → Host
    mapping : Entries → Host
    -- a member of an enum that is no `str`: its value, if that is a `str`, and its name
    member : Option String → String → Host
    object : Sizing → Attributes → Host

  pub data Hosts : Type 0 where
    last : Hosts
    item : Host → Hosts → Hosts

  pub data Entries : Type 0 where
    blank : Entries
    entry : String → Host → Entries → Entries

  pub data Attributes : Type 0 where
    bare : Attributes
    attribute : String → Host → Attributes → Attributes
    failing : String → Attributes → Attributes

-- `_RefusalReason`
pub data RefusalReason : Type 0 where
  missing_run_id unhashable_run_id : RefusalReason
  non_text_stream_token unsupported_stream_chunk : RefusalReason
  stream_token_chunk_mismatch stream_buffer_exceeded : RefusalReason
  missing_final_response malformed_final_response no_generation : RefusalReason
  multiple_generation_groups multiple_generations : RefusalReason
  non_text_content text_message_mismatch tool_or_action_content : RefusalReason
  unsupported_message_metadata : RefusalReason
  output_truncated output_incomplete unknown_termination stream_final_mismatch : RefusalReason

-- How an inspection ends: with a value, with a `_Refusal`, or with an exception of the host's.
pub data Inspection (A : Type 0) : Type 0 where
  accepts : A → Inspection A
  refuses : RefusalReason → Inspection A
  crashes : Inspection A

infixl 5 ◌>>=◌
abbrev pub ◌>>=◌ : {A B : Type 0} → Inspection A → (A → Inspection B) → Inspection B
accepts a >>= f = f a
refuses r >>= f = refuses r
crashes >>= f = crashes

-- `_guarded`
unfoldable pub guarded : {A : Type 0} → RefusalReason → Inspection A → Inspection A
guarded fallback (accepts a) = accepts a
guarded fallback (refuses r) = refuses r
guarded fallback crashes = refuses fallback

unfoldable pub attribute_of : String → Attributes → Inspection (Option Host)
attribute_of name bare = accepts none
attribute_of name (attribute other value attrs) =
    if other == name then accepts (some value) else attribute_of name attrs
attribute_of name (failing other attrs) = if other == name then crashes else attribute_of name attrs

-- `getattr(x, name, _MISSING)`
unfoldable pub getattr : String → Host → Inspection (Option Host)
unfolding attribute_of
getattr name (object sizing attrs) = attribute_of name attrs
getattr name _ = accepts none

-- `getattr(x, name, None)`
unfoldable pub getattr_or_none : String → Host → Inspection Host
unfolding getattr
getattr_or_none name x = do
  found ← getattr name x
  accepts (elim found [ none ↦ nothing | some value ↦ value ])

-- `m.get(key)`
unfoldable pub get : String → Entries → Host
get key blank = nothing
get key (entry other value es) = if other == key then value else get key es

-- `_is_present`
unfoldable pub is_present : RefusalReason → Host → Inspection Bool
is_present malformed nothing = accepts false
is_present malformed (text s) = accepts (not (nat_beq (count s) 0))
is_present malformed (sequence last) = accepts false
is_present malformed (mapping blank) = accepts false
is_present malformed (object (sized n) attrs) = accepts (not (nat_beq n 0))
is_present malformed (object failing_len attrs) = refuses malformed
is_present malformed _ = accepts true

abbrev pub refuse_if : RefusalReason → Bool → Inspection (Unit {0})
refuse_if reason true = refuses reason
refuse_if reason false = accepts tt

-- `_ACTION_FIELDS` and `_ACTION_KWARGS`
abbrev pub action_fields : List String
action_fields = "tool_calls" ∷ "invalid_tool_calls" ∷ "tool_call_chunks" ∷ []

abbrev pub action_kwargs : List String
action_kwargs = "function_call" ∷ "tool_calls" ∷ []

abbrev pub complete_terminations : List String
complete_terminations = "stop" ∷ "end_turn" ∷ "stop_sequence" ∷ []

abbrev pub truncated_terminations : List String
truncated_terminations = "length" ∷ "max_tokens" ∷ "max_output_tokens" ∷ []

abbrev pub incomplete_terminations : List String
incomplete_terminations = "content_filter" ∷ "safety" ∷ "refusal" ∷ []
