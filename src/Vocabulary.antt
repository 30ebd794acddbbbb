-- ===== src/Vocabulary.antt =====
-- libs/congine-sdk/src/congine_core/domain/schema_vocabulary.py and semantic_capability.py: which
-- keywords some evaluator executes. A frozen set of names is a list of them.
use Prim.Native.String.{compare}
use text.Mathlib.Text.{is_lt, is_eq}
use congine.Json.{Value, str, list, dict, Items, nil, cons, Fields, end, field, get, has}
use congine.Json.Builtins.{is_bool}
use congine.Prelude.{
  ℕ, zero, suc, ◌-◌, ◌/◌, ◌*◌, String, Bool, true, false, not, ◌&&◌, ◌||◌, Option, some, List, [],
  ◌∷◌, ◌++◌, ◌⧺◌, ◌==◌, string_eq, contains, if◌then◌else◌, ltb, take, length,
}

abbrev pub enforced_top_level_keywords : List String
enforced_top_level_keywords = "properties" ∷ "required" ∷ "null_forbidden" ∷ []

abbrev pub enforced_property_keywords : List String
enforced_property_keywords =
    "type" ∷ "enum" ∷ "min" ∷ "max" ∷ "minimum" ∷ "maximum" ∷ "pattern" ∷ []

abbrev pub ignorable_metadata_keywords : List String
ignorable_metadata_keywords =
    "description" ∷ "title" ∷ "default" ∷ "examples" ∷ "$comment" ∷ "deprecated" ∷ "readOnly"
    ∷ "writeOnly" ∷ "$schema" ∷ "$id" ∷ []

abbrev pub recognised_type_names : List String
recognised_type_names =
    "string" ∷ "number" ∷ "integer" ∷ "boolean" ∷ "object" ∷ "array" ∷ "null" ∷ []

abbrev pub native_enforced_keywords : List String
native_enforced_keywords = enforced_top_level_keywords ++ enforced_property_keywords

abbrev pub semantic_enforced_keywords : List String
semantic_enforced_keywords =
    "minLength" ∷ "maxLength" ∷ "exclusiveMinimum" ∷ "exclusiveMaximum" ∷ "multipleOf" ∷ "items"
    ∷ "prefixItems" ∷ "minItems" ∷ "maxItems" ∷ "uniqueItems" ∷ "contains" ∷ "minContains"
    ∷ "maxContains" ∷ "additionalProperties" ∷ "minProperties" ∷ "maxProperties"
    ∷ "patternProperties" ∷ "propertyNames" ∷ "dependentRequired" ∷ "dependentSchemas" ∷ "allOf"
    ∷ "anyOf" ∷ "oneOf" ∷ "not" ∷ "if" ∷ "then" ∷ "else" ∷ "const" ∷ "$ref" ∷ "$defs"
    ∷ "definitions" ∷ []

-- `_MAX_REPORTED`
abbrev pub max_reported : ℕ
max_reported = 20

-- A name in `{`, `}` of an f-string: the decimal digits of a number, with fuel for its digits.
digit : ℕ → String
digit zero = "0"
digit (suc zero) = "1"
digit (suc (suc zero)) = "2"
digit (suc (suc (suc zero))) = "3"
digit (suc (suc (suc (suc zero)))) = "4"
digit (suc (suc (suc (suc (suc zero))))) = "5"
digit (suc (suc (suc (suc (suc (suc zero)))))) = "6"
digit (suc (suc (suc (suc (suc (suc (suc zero))))))) = "7"
digit (suc (suc (suc (suc (suc (suc (suc (suc zero)))))))) = "8"
digit _ = "9"

show_digits : ℕ → ℕ → String
show_digits zero n = ""
show_digits (suc fuel) n =
    let front = show_digits fuel (n / 10) in
    if ltb n 10 then digit n else front ⧺ digit (n - 10 * (n / 10))

unfoldable pub show_ℕ : ℕ → String
unfolding digit show_digits
show_ℕ n = show_digits (suc n) n

-- `sorted(set(names))`, by insertion into a sorted list without repetitions
unfoldable pub insert_sorted : String → List String → List String
insert_sorted a [] = a ∷ []
insert_sorted a (b ∷ bs) =
    let rest = b ∷ insert_sorted a bs in
    if is_lt (compare a b) then a ∷ b ∷ bs else if is_eq (compare a b) then b ∷ bs else rest

unfoldable pub sorted_set : List String → List String
unfolding insert_sorted
sorted_set [] = []
sorted_set (a ∷ as_) = insert_sorted a (sorted_set as_)

-- the report, cut after `_MAX_REPORTED` names
capped : List String → List String
capped unique =
    if ltb max_reported (length unique)
    then take max_reported unique
      ++ (("... (+" ⧺ show_ℕ (length unique - max_reported)) ⧺ " more)") ∷ []
    else unique

module _ {F : Type 0} where
  -- `isinstance(member, str) and member in RECOGNISED_TYPE_NAMES`
  unfoldable pub is_recognised : Value F → Bool
  is_recognised (str name) = contains name recognised_type_names
  is_recognised _ = false

  unfoldable pub all_recognised : Items F → Bool
  all_recognised nil = true
  all_recognised (cons x xs) = is_recognised x && all_recognised xs

  -- `type_is_enforceable`
  unfoldable pub type_is_enforceable : Value F → Bool
  unfolding is_recognised all_recognised
  type_is_enforceable (list nil) = false
  type_is_enforceable (list (cons x xs)) = all_recognised (cons x xs)
  type_is_enforceable v = is_recognised v

  is_text : String → Value F → Bool
  is_text s (str t) = t == s
  is_text s _ = false

  -- one key of the top level
  top_level_finding : String → Value F → List String
  top_level_finding key value =
      if contains key enforced_top_level_keywords || contains key ignorable_metadata_keywords
      then []
      else if key == "type"
      then if is_text "object" value then [] else "<root>.type" ∷ []
      else ("<root>." ⧺ key) ∷ []

  -- one key of a property's declaration
  property_finding : String → String → Value F → List String
  property_finding name key value =
      if contains key ignorable_metadata_keywords
      then []
      else if key == "type"
      then if type_is_enforceable value then [] else (name ⧺ ".type") ∷ []
      else if contains key enforced_property_keywords
      then []
      else ((name ⧺ ".") ⧺ key) ∷ []

  top_level_findings : Fields F → List String
  top_level_findings end = []
  top_level_findings (field key value fs) = top_level_finding key value ++ top_level_findings fs

  spec_findings : String → Fields F → List String
  spec_findings name end = []
  spec_findings name (field key value fs) = property_finding name key value ++ spec_findings name fs

  property_findings : Fields F → List String
  property_findings end = []
  property_findings (field name (dict spec) fs) = spec_findings name spec ++ property_findings fs
  property_findings (field name _ fs) = property_findings fs

  properties_findings : Option (Value F) → List String
  properties_findings (some (dict fs)) = property_findings fs
  properties_findings _ = []

  -- `find_unenforced_keywords` of a mapping; of anything else it reports nothing
  unfoldable pub find_unenforced_keywords : Fields F → List String
  unfolding is_text top_level_finding property_finding top_level_findings spec_findings
      property_findings properties_findings capped sorted_set type_is_enforceable contains show_ℕ
  find_unenforced_keywords schema =
      capped
        (sorted_set (top_level_findings schema ++ properties_findings (get "properties" schema)))

-- `SemanticCapability`
pub record SemanticCapability : Type 0 where
  pub enforced_keywords : List String
  pub format_assertion : Bool
  pub supported_formats : List String
  pub boolean_exclusive_bounds : Bool

-- `enforces_exclusive_bound`
unfoldable pub enforces_exclusive_bound :
    {F : Type 0} → SemanticCapability → String → Value F → Fields F → Bool
enforces_exclusive_bound c keyword value node =
    if contains keyword c.enforced_keywords
    then not (is_bool value)
    else if not c.boolean_exclusive_bounds || not (is_bool value)
    then false
    else has (if keyword == "exclusiveMinimum" then "minimum" else "maximum") node

-- `enforces_format`
unfoldable pub enforces_format : SemanticCapability → String → Bool
enforces_format c name = c.format_assertion && contains name c.supported_formats
