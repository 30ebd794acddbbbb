-- ===== src/Semantic/Capability.antt =====
-- libs/congine-sdk/src/congine_core/infrastructure/jsonschema_validator.py: the dialects, and the
-- capability that `__init__` derives from the validator class. The classes are those of the `jsonschema`
-- package: `ValidatorClass` says what is read off one. A set of names is a list of them.
pub mod Exact
mod Examples
use congine.Json.Text.{chars, join}
use congine.Prelude.{
  ℕ, String, Bool, true, false, not, ◌&&◌, ◌||◌, Option, none, some, List, [], ◌∷◌, ◌++◌, ◌==◌,
  string_eq, contains, if◌then◌else◌, ltb, is_empty,
}
use congine.Vocabulary.{SemanticCapability}

pub data Dialect : Type 0 where
  draft4 draft6 draft7 draft201909 draft202012 : Dialect

pub record ValidatorClass : Type 0 where
  -- whether it is the stock class of a dialect, or a subclass of that (`issubclass_safe`)
  pub extends : Dialect → Bool
  -- the keys of `VALIDATORS`
  pub handlers : List String
  -- the names of `FORMAT_CHECKER.checkers`, none if it has none
  pub checkers : List String
  -- `__name__`
  pub name : String

-- `_DRAFT_RANK`
abbrev pub rank_of : Dialect → ℕ
rank_of draft4 = 0
rank_of draft6 = 1
rank_of draft7 = 2
rank_of draft201909 = 3
rank_of draft202012 = 4

abbrev pub ranked : List Dialect
ranked = draft4 ∷ draft6 ∷ draft7 ∷ draft201909 ∷ draft202012 ∷ []

unfoldable pub first_extended : (Dialect → Bool) → List Dialect → Option Dialect
first_extended extends [] = none
first_extended extends (d ∷ ds) = if extends d then some d else first_extended extends ds

-- `_base_class`: the stock class, if it is one of these
unfoldable pub base_class : ValidatorClass → Option Dialect
unfolding first_extended
base_class cls = first_extended cls.extends ranked

abbrev pub label : Dialect → String
label draft4 = "draft4"
label draft6 = "draft6"
label draft7 = "draft7"
label draft201909 = "draft201909"
label draft202012 = "draft202012"

abbrev or_name : String → Option Dialect → String
or_name name none = name
or_name name (some d) = label d

-- `_draft_name`
unfoldable pub draft_name : ValidatorClass → String
unfolding base_class
draft_name cls = or_name cls.name (base_class cls)

-- an entry of `_COMPOSED_KEYWORDS`, with its entry of `_COMPOSED_MIN_RANK`
pub record Composed : Type 0 where
  pub keyword : String
  pub parent : String
  pub floor : Option ℕ

abbrev pub composed_keywords : List Composed
composed_keywords =
    record { keyword = "then"; parent = "if"; floor = none }
    ∷ record { keyword = "else"; parent = "if"; floor = none }
    ∷ record { keyword = "minContains"; parent = "contains"; floor = some 3 }
    ∷ record { keyword = "maxContains"; parent = "contains"; floor = some 3 }
    ∷ []

abbrev pub container_keywords : List String
container_keywords = "$defs" ∷ "definitions" ∷ []

abbrev pub below : Option Dialect → Option ℕ → Bool
below _ none = false
below none (some floor) = true
below (some d) (some floor) = ltb (rank_of d) floor

-- the loop over `_COMPOSED_KEYWORDS`: what it adds
unfoldable pub composed : List String → Option Dialect → List Composed → List String
unfolding contains
composed handlers base [] = []
composed handlers base (c ∷ cs) =
    let rest = composed handlers base cs in
    if not (contains c.parent handlers)
    then rest
    else if below base c.floor
    then rest
    else c.keyword ∷ rest

-- `set.discard`
unfoldable pub discard : String → List String → List String
discard k [] = []
discard k (j ∷ js) = let rest = discard k js in if j == k then rest else j ∷ rest

-- the set `enforced` when `format` has not been looked at
unfoldable pub enforced : ValidatorClass → List String
unfolding contains base_class composed
enforced cls =
    cls.handlers
    ++ ((if contains "$ref" cls.handlers then container_keywords else [])
        ++ composed cls.handlers (base_class cls) composed_keywords)

-- `derive_capability`
unfoldable pub derive_capability : ValidatorClass → Bool → SemanticCapability
unfolding contains enforced discard
derive_capability cls format_checking = record {
  enforced_keywords = if format_checking then enforced cls else discard "format" (enforced cls);
  format_assertion = format_checking;
  supported_formats = if format_checking then cls.checkers else [];
  boolean_exclusive_bounds =
      contains "minimum" cls.handlers && not (contains "exclusiveMinimum" cls.handlers);
}

-- `_DRAFT_VALIDATORS`
abbrev pub draft_validators : List (String × Dialect)
draft_validators =
    ("draft202012", draft202012)
    ∷ ("202012", draft202012)
    ∷ ("2020", draft202012)
    ∷ ("draft201909", draft201909)
    ∷ ("201909", draft201909)
    ∷ ("2019", draft201909)
    ∷ ("draft7", draft7)
    ∷ ("draft07", draft7)
    ∷ ("7", draft7)
    ∷ ("07", draft7)
    ∷ ("draft6", draft6)
    ∷ ("draft06", draft6)
    ∷ ("6", draft6)
    ∷ ("draft4", draft4)
    ∷ ("draft04", draft4)
    ∷ ("4", draft4)
    ∷ []

unfoldable pub look_up : String → List (String × Dialect) → Option Dialect
look_up key [] = none
look_up key ((name, d) ∷ rest) = if name == key then some d else look_up key rest

-- `[a-z0-9]`
abbrev pub kept_chars : List String
unfolding chars
kept_chars = chars "abcdefghijklmnopqrstuvwxyz0123456789"

unfoldable pub keep_chars : List String → List String
unfolding contains
keep_chars [] = []
keep_chars (c ∷ cs) = let rest = keep_chars cs in if contains c kept_chars then c ∷ rest else rest

-- `_resolve_draft`: nothing where it raises `CongineConfigurationError`
unfoldable pub resolve_draft : (lower : String → String) → String → Option Dialect
unfolding chars join keep_chars look_up
resolve_draft lower draft = look_up (join "" (keep_chars (chars (lower draft)))) draft_validators
