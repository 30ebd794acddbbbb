-- ===== src/Validator/Conforms.antt =====
-- What a contract asks of a payload, stated without the rule engine's loops and messages.
use congine.Json.{
  Number, int, Value, null, bool, num, str, list, dict, Items, nil, cons, Fields, Floats, Re2,
  InItems, InFields, get, has, ℤ,
}
use congine.Json.Builtins.{truthy, lt_number, eq_value}
use congine.Json.Text.{split, has_text}
use congine.Prelude.{
  String, Bool, true, false, ◌≡◌, ◌≢◌, ◌≤◌, Option, none, some, ◌⊎◌, List, [], ◌∷◌, count,
}
use congine.Validator.{bound, max_pattern_length, max_regex_value_length}

-- The type names of JSON Schema.
pub data JsonType : Type 0 where
  string_type number_type integer_type boolean_type object_type array_type null_type : JsonType

abbrev pub name_of : JsonType → String
name_of string_type = "string"
name_of number_type = "number"
name_of integer_type = "integer"
name_of boolean_type = "boolean"
name_of object_type = "object"
name_of array_type = "array"
name_of null_type = "null"

-- The values of each type: a bool is no number.
pub data HasType {F : Type 0} : JsonType → Value F → Type 0 where
  a_string : (s : String) → HasType string_type (str s)
  a_number : (n : Number F) → HasType number_type (num n)
  an_integer : (z : ℤ) → HasType integer_type (num (int z))
  a_boolean : (b : Bool) → HasType boolean_type (bool b)
  an_object : (fs : Fields F) → HasType object_type (dict fs)
  an_array : (xs : Items F) → HasType array_type (list xs)
  a_null : HasType null_type null

module _ {F : Type 0} where
  -- A dotted path leads through nested mappings to a key that is there.
  pub data PathPresent : List String → Value F → Type 0 where
    arrived : {v : Value F} → PathPresent [] v
    step :
        {segment : String} {segments : List String} {fs : Fields F} {v : Value F}
        → get segment fs ≡ some v
        → PathPresent segments v
        → PathPresent (segment ∷ segments) (dict fs)

  -- A value is of a named type; a name that is no JSON type asks for nothing.
  abbrev pub Named : String → Value F → Type 0
  Named name v = (t : JsonType) → name ≡ name_of t → HasType t v

  -- A value is of a declared type: of the one named, or of a member of the union, which may be a union
  -- again. An empty union and what is no name ask for nothing.
  unfoldable mutual
    pub OfType : Value F → Value F → Type 0
    OfType (str name) v = Named name v
    OfType (list nil) v = Unit
    OfType (list (cons x xs)) v = OfType x v ⊎ OfAny xs v
    OfType _ v = Unit

    pub OfAny : Items F → Value F → Type 0
    OfAny nil v = ⊥
    OfAny (cons x xs) v = OfType x v ⊎ OfAny xs v

  -- What a declaration says under a key; a declaration that is no mapping is the type itself.
  abbrev pub clause : String → Value F → Option (Value F)
  clause key (dict spec) = get key spec
  clause key spec = none

  abbrev pub declared_type : Value F → Option (Value F)
  declared_type (dict spec) = get "type" spec
  declared_type spec = some spec

  -- A value is among the allowed ones: an equal item of a list, a part of a text, a key of a mapping.
  abbrev pub Allowed : Floats F → Value F → Value F → Type 0
  Allowed fl v (list xs) = (x : Value F) × InItems x xs × (eq_value fl v x ≡ true)
  Allowed fl (str part) (str text) = has_text part text ≡ true
  Allowed fl (str key) (dict fs) = has key fs ≡ true
  Allowed fl _ _ = ⊥

  module _ (fl : Floats F) (re : Re2) where
    -- What the declarations for one property ask of its value.
    pub record Fits (spec v : Value F) : Type 0 where
      pub typed :
          v ≢ null → (t : Value F) → declared_type spec ≡ some t → truthy fl t ≡ true → OfType t v
      pub allowed : (e : Value F) → clause "enum" spec ≡ some e → Allowed fl v e
      pub at_least :
          (n m : Number F)
          → v ≡ num n
          → bound "min" "minimum" spec ≡ num m
          → lt_number fl n m ≡ false
      pub at_most :
          (n m : Number F)
          → v ≡ num n
          → bound "max" "maximum" spec ≡ num m
          → lt_number fl m n ≡ false
      pub matched :
          (s pattern : String)
          → v ≡ str s
          → clause "pattern" spec ≡ some (str pattern)
          → pattern ≢ ""
          → (re.fullmatch pattern s ≡ true)
            × ((count s ≤ max_regex_value_length) × (count pattern ≤ max_pattern_length))

    -- What a contract with these top-level lists and properties asks of a payload.
    pub record Conforms (required : Items F) (properties : Fields F) (forbidden : Items F)
        (payload : Fields F) : Type 0 where
      pub present :
          (name : String)
          → InItems (str name) required
          → PathPresent (split b'.' name) (dict payload)
      pub not_null : (name : String) → InItems (str name) forbidden → get name payload ≢ some null
      pub fits :
          (name : String) (spec v : Value F)
          → InFields name spec properties
          → get name payload ≡ some v
          → Fits spec v
