-- ===== src/Semantic.antt =====
-- libs/congine-sdk/src/congine_core/infrastructure/jsonschema_validator.py: the semantic validator. The
-- `jsonschema` package is not in the repository: `Engine` says what the validator class answers that
-- `__init__` resolved, with its RE2 handlers and without retrieval, and what the sanitizer does.
pub mod Cache
pub mod Identity
pub mod Bounds
pub mod Markers
pub mod Transparent
pub mod Capability
mod Examples
use congine.Json.{
  Value, null, str, list, dict, Fields, end, field, Result, ok, raise, Exc, get_or, ◌>>=◌,
}
use congine.Json.Text.{join}
use congine.Models.{BreachDetail}
use congine.Prelude.{
  ℕ, zero, suc, String, Bool, true, false, Option, none, some, List, [], ◌∷◌, ◌++◌, ltb, count, ◌⧺◌,
  if◌then◌else◌, is_empty,
}
use congine.Vocabulary.{show_ℕ}
use congine.Validator.{max_pattern_length}
use Cache.{PreparationCache, is_prepared, mark_prepared}
use Identity.{Canon, CacheKey, key_eq, preparation_key, prepare_identity}

-- `jsonschema.ValidationError`: the `str` of the parts of its path, and its message
pub record Error : Type 0 where
  pub absolute_path : List String
  pub message : String

pub record Engine (F : Type 0) : Type 0 where
  pub validator_cls : ℕ
  -- `check_schema`: the message of a SchemaError, if it raises one
  pub check_schema : Value F → Result (Option String)
  -- `iter_errors`, with a format checker or without one: what it yields, and what it raises then
  pub iter_errors : Bool → Value F → Value F → List Error × Option Exc
  pub sanitize : String → String

pub record Settings : Type 0 where
  pub max_breaches : ℕ
  pub format_checking : Bool

-- `_field_path`
unfoldable pub field_path : Error → String
field_path e = if is_empty e.absolute_path then "<root>" else join "." e.absolute_path

abbrev pub semantic_breach : String → String → BreachDetail
semantic_breach place message = record {
  rule = "SEMANTIC_SCHEMA";
  field_name = place;
  message = message;
}

-- the loop over `iter_errors`: the breaches, and whether it was cut off with an error in hand
unfoldable pub drain :
    (String → String) → ℕ → List Error → Option Exc → Result (List BreachDetail × Bool)
unfolding field_path
drain sanitize n [] none = ok ([], false)
drain sanitize n [] (some e) = raise e
drain sanitize zero (e ∷ es) ending = ok ([], true)
drain sanitize (suc n) (e ∷ es) ending = do
  (breaches, truncated) ← drain sanitize n es ending
  ok (semantic_breach (field_path e) (sanitize e.message) ∷ breaches, truncated)

abbrev pub truncation : ℕ → BreachDetail
truncation max_breaches = record {
  rule = "SEMANTIC_TRUNCATED";
  field_name = "<root>";
  message = ("Semantic validation truncated after " ⧺ show_ℕ max_breaches) ⧺ " breaches";
}

-- the breaches that are found first stand
abbrev pub unless_found :
    {A : Type 0}
    → List BreachDetail
    → A
    → Result (List BreachDetail) × A
    → Result (List BreachDetail) × A
unless_found [] a rest = rest
unless_found (b ∷ bs) a rest = (ok (b ∷ bs), a)

module _ {F : Type 0} where
  pattern_breach : String → Value F → List BreachDetail
  pattern_breach name (str pattern) =
      if ltb max_pattern_length (count pattern)
      then semantic_breach name (("Pattern for '" ⧺ name) ⧺ "' exceeds the safe length budget") ∷ []
      else []
  pattern_breach name _ = []

  spec_pattern : String → Value F → List BreachDetail
  spec_pattern name (dict spec) = pattern_breach name (get_or "pattern" null spec)
  spec_pattern name _ = []

  pattern_breaches : Fields F → List BreachDetail
  pattern_breaches end = []
  pattern_breaches (field name spec fs) = spec_pattern name spec ++ pattern_breaches fs

  properties_patterns : Value F → List BreachDetail
  properties_patterns (dict properties) = pattern_breaches properties
  properties_patterns _ = []

  -- `_check_schema_patterns`
  unfoldable pub check_schema_patterns : Value F → List BreachDetail
  unfolding pattern_breach spec_pattern pattern_breaches properties_patterns
  check_schema_patterns (dict schema) = properties_patterns (get_or "properties" (dict end) schema)
  check_schema_patterns _ = []

module _ {F : Type 0} (canon : Canon F) (engine : Engine F) (s : Settings) where
  -- the end of `validate`: a fresh validator, and the bounded loop over its errors
  unfoldable pub evaluate : Value F → Value F → Result (List BreachDetail)
  unfolding drain
  evaluate payload snapshot =
      let (errors, ending) = engine.iter_errors s.format_checking snapshot payload in
      do
        (breaches, truncated) ← drain engine.sanitize s.max_breaches errors ending
        ok (if truncated then breaches ++ truncation s.max_breaches ∷ [] else breaches)

  -- what `validate` makes of the answer of `check_schema`, without the marker that it sets
  unfoldable pub judge : Value F → Value F → Result (Option String) → Result (List BreachDetail)
  unfolding evaluate
  judge payload snapshot (ok none) = evaluate payload snapshot
  judge payload snapshot (ok (some message)) =
      ok (semantic_breach "<schema>" (engine.sanitize ("Invalid schema: " ⧺ message)) ∷ [])
  judge payload snapshot (raise e) = raise e

  -- the marker is set after a success only
  unfoldable pub mark_after :
      Result (Option String) → CacheKey → PreparationCache CacheKey → PreparationCache CacheKey
  unfolding mark_prepared
  mark_after (ok none) key c = mark_prepared key c
  mark_after _ key c = c

  unfoldable pub prepare_and_judge :
      Value F
      → Value F
      → Option CacheKey
      → PreparationCache CacheKey
      → Result (List BreachDetail) × PreparationCache CacheKey
  unfolding judge mark_after is_prepared
  prepare_and_judge payload snapshot none c =
      (judge payload snapshot (engine.check_schema snapshot), c)
  prepare_and_judge payload snapshot (some key) c =
      let (prepared, c') = is_prepared key c in
      if prepared then (evaluate payload snapshot, c') else (
        judge payload snapshot (engine.check_schema snapshot),
        mark_after (engine.check_schema snapshot) key c',
      )

  abbrev pub key_of : Option String → Option CacheKey
  key_of none = none
  key_of (some digest) = some (preparation_key digest engine.validator_cls s.format_checking)

  -- `JsonSchemaSemanticValidator.validate`
  unfoldable pub validate :
      Value F
      → Fields F
      → PreparationCache CacheKey
      → Result (List BreachDetail) × PreparationCache CacheKey
  unfolding prepare_identity check_schema_patterns prepare_and_judge preparation_key
  validate payload schema c =
      let (snapshot, digest) = prepare_identity canon (dict schema) in
      unless_found (check_schema_patterns snapshot) c
        (prepare_and_judge payload snapshot (key_of digest) c)

  -- the evaluator that remembers nothing
  unfoldable pub validate_uncached : Value F → Fields F → Result (List BreachDetail)
  unfolding check_schema_patterns judge
  validate_uncached payload schema =
      (unless_found (check_schema_patterns (dict schema)) tt
        (judge payload (dict schema) (engine.check_schema (dict schema)), tt)).0
