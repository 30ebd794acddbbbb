-- ===== src/Admission/Declared.antt =====
-- What admission guarantees of the declarations of a contract's properties.
use congine.Admission.{Mode, admit_contract, findings}
use congine.Admission.Engine.{nil_parts, Numeric, check_spec-Sane}
use congine.Admission.Grammar.{
  check_top_level_lists, check_properties, check_each, check_property, check_spec, check_type,
  check_pattern, check_regex_value, if_present,
}
use congine.Admission.Verdict.{admitted-iff-clean}
use congine.Json.{
  ℤ, Value, str, list, dict, Items, nil, cons, Fields, end, field, Re2, InItems, first, later, int,
  float, InFields, here, there, get,
}
use congine.Json.Text.{has_char}
use congine.Prelude.{
  ◌↔◌, ◌∷◌, map, contains, ◌==◌, string_eq, sym, ap, Bool-cases, inl, inr, false≢true, ◌≤◌, String,
  true, false, ◌≡◌, refl, Option, some, List, [], count, arith, subst,
}
use congine.Validator.{max_pattern_length}
use congine.Validator.Types.{type_matches, any_matches, name_matches}
use congine.Validator.Sound.{name_matches-HasType}
use congine.Validator.Conforms.{
  JsonType, string_type, number_type, integer_type, boolean_type, object_type, array_type,
  null_type, name_of, HasType, a_string, a_number, an_integer, a_boolean, an_object, an_array,
  a_null,
}
use congine.Vocabulary.{SemanticCapability, is_recognised, all_recognised, type_is_enforceable}

-- A value is of a declared type: of the JSON type that is named, or of one that the union names.
pub data OfDeclared {F : Type 0} (v : Value F) : Value F → Type 0 where
  named : (t : JsonType) → HasType t v → OfDeclared v (str (name_of t))
  member :
      (t : JsonType) {xs : Items F}
      → InItems (str (name_of t)) xs
      → HasType t v
      → OfDeclared v (list xs)

-- The rule engine's test of values against a declared type decides whether they are of it.
abbrev pub Decided : {F : Type 0} → Value F → Type 0
Decided {F} t = (v : Value F) → (type_matches v t ≡ true) ↔ OfDeclared v t

json_types : List JsonType
json_types =
    string_type ∷ number_type ∷ integer_type ∷ boolean_type ∷ object_type ∷ array_type ∷ null_type
    ∷ []

name-JsonType :
    (name : String) (ts : List JsonType)
    → contains name (map name_of ts) ≡ true
    → (t : JsonType) × (name ≡ name_of t)
unfolding contains
name-JsonType name [] h = absurd (false≢true h)
name-JsonType name (t ∷ ts) h = elim (Bool-cases (name_of t == name)) [
  | inl same ↦ (t, sym ((string_eq.beq_iff (name_of t) name).0 same))
  | inr other ↦ name-JsonType name ts (ground (arith, h, other))
]

module _ {F : Type 0} where
  HasType-matches : {t : JsonType} {v : Value F} → HasType t v → name_matches v (name_of t) ≡ true
  unfolding name_matches
  HasType-matches (a_string s) = refl
  HasType-matches (a_number (int z)) = refl
  HasType-matches (a_number (float x)) = refl
  HasType-matches (an_integer z) = refl
  HasType-matches (a_boolean b) = refl
  HasType-matches (an_object fs) = refl
  HasType-matches (an_array xs) = refl
  HasType-matches a_null = refl

  recognised-JsonType :
      (m : Value F) → is_recognised m ≡ true → (t : JsonType) × (m ≡ str (name_of t))
  unfolding is_recognised json_types
  recognised-JsonType (str name) h = let (t, e) = name-JsonType name json_types h in (t, ap str e)
  recognised-JsonType m h = absurd (ground (arith, h))

  any_matches-member :
      (xs : Items F) (v : Value F)
      → all_recognised xs ≡ true
      → any_matches v xs ≡ true
      → (t : JsonType) × InItems (str (name_of t)) xs × HasType t v
  unfolding type_matches all_recognised
  any_matches-member nil v all h = absurd (false≢true h)
  any_matches-member (cons x xs) v all h =
      let (t, e) = recognised-JsonType x (ground (arith, all)) in
      elim (Bool-cases (type_matches v x)) [
        | inl this ↦ (
          t,
          subst (λ m. InItems m (cons x xs)) e first,
          name_matches-HasType t v (subst (λ m. type_matches v m ≡ true) e this),
        )
        | inr other ↦
            let (u, i, has) =
              any_matches-member xs v (ground (arith, all)) (ground (arith, h, other)) in
            (u, later i, has)
      ]

  member-any_matches :
      {m : Value F} {xs : Items F} (v : Value F)
      → InItems m xs
      → type_matches v m ≡ true
      → any_matches v xs ≡ true
  unfolding type_matches
  member-any_matches v first h = ground (arith, h)
  member-any_matches v (later i) h = ground (arith, member-any_matches v i h)

  any_matches-list :
      (xs : Items F) (v : Value F) → any_matches v xs ≡ true → type_matches v (list xs) ≡ true
  unfolding type_matches
  any_matches-list nil v h = absurd (false≢true h)
  any_matches-list (cons x xs) v h = h

  OfDeclared-matches : {t v : Value F} → OfDeclared v t → type_matches v t ≡ true
  unfolding type_matches
  OfDeclared-matches (named t has) = HasType-matches has
  OfDeclared-matches {v = v} (member t {xs} i has) =
      any_matches-list xs v (member-any_matches {m = str (name_of t)} v i (HasType-matches has))

  Decided-name : (t : JsonType) → Decided {F = F} (str (name_of t))
  unfolding type_matches
  Decided-name t v = (λ h. named t (name_matches-HasType t v h), λ d. OfDeclared-matches d)

  enforceable-Decided : (t : Value F) → type_is_enforceable t ≡ true → Decided t
  unfolding type_is_enforceable type_matches
  enforceable-Decided (str name) h =
      let (t, e) = recognised-JsonType (str name) h in subst Decided (sym e) (Decided-name t)
  enforceable-Decided (list (cons x xs)) h = λ v. (
    λ m. let (t, i, has) = any_matches-member (cons x xs) v h m in member t i has,
    λ d. OfDeclared-matches d,
  )
  enforceable-Decided t h = absurd (unfold is_recognised in ground (arith, h))

module _ {F : Type 0} (re : Re2) where
  -- A declaration whose every clause the rule engine can execute.
  pub record Enforceable (name : String) (spec : Fields F) : Type 0 where
    pub flat : has_char b'.' name ≡ false
    pub typed : (t : Value F) → get "type" spec ≡ some t → Decided t
    pub compiled :
        (p : Value F)
        → get "pattern" spec ≡ some p
        → (s : String) × (p ≡ str s)
          × (count s ≤ max_pattern_length)
          × ((re.encodes s ≡ true) × (re.compiles s ≡ true))
    pub listed : (v : Value F) → get "enum" spec ≡ some v → (xs : Items F) × (v ≡ list xs)
    pub bounded :
        Numeric "min" spec × Numeric "max" spec × Numeric "minimum" spec × Numeric "maximum" spec

  enforceable_type :
      (name : String) (t : Value F) → check_type name t ≡ [] → type_is_enforceable t ≡ true
  unfolding check_type
  enforceable_type name (list nil) h = absurd (ground (arith, h))
  enforceable_type name (list (cons x xs)) h = ground (arith, h)
  enforceable_type name t h = ground (arith, h)

  compiled_pattern :
      (name : String) (p : Value F)
      → check_pattern re name p ≡ []
      → (s : String) × (p ≡ str s)
        × (count s ≤ max_pattern_length)
        × ((re.encodes s ≡ true) × (re.compiles s ≡ true))
  unfolding check_pattern check_regex_value
  compiled_pattern name (str s) h =
      (s, refl, ground (arith, h), (ground (arith, h), ground (arith, h)))
  compiled_pattern name p h = absurd (ground (arith, h))

  type_and_pattern :
      (name : String) (spec : Fields F)
      → check_spec re name (dict spec) ≡ []
      → (if_present (check_type name) (get "type" spec) ≡ [])
        × (if_present (check_pattern re name) (get "pattern" spec) ≡ [])
  unfolding check_spec
  type_and_pattern name spec h =
      let (t, rest) = nil_parts (if_present (check_type name) (get "type" spec)) _ h in
      (t, (nil_parts (if_present (check_pattern re name) (get "pattern" spec)) _ rest).0)

  check_spec-Enforceable :
      (name : String) (spec : Fields F)
      → has_char b'.' name ≡ false
      → check_spec re name (dict spec) ≡ []
      → Enforceable name spec
  check_spec-Enforceable name spec flat h =
      let sane = check_spec-Sane re name spec h in
      record {
        flat = flat;
        typed = λ t e. enforceable-Decided t (
            enforceable_type name t (
              subst (λ o. if_present (check_type name) o ≡ []) e (type_and_pattern name spec h).0));
        compiled = λ p e. compiled_pattern name p (
            subst (λ o. if_present (check_pattern re name) o ≡ []) e
              (type_and_pattern name spec h).1);
        listed = sane.enum_list;
        bounded = (sane.min_number, sane.max_number, sane.minimum_number, sane.maximum_number);
      }

  check_property-Enforceable :
      (name : String) (v : Value F)
      → check_property re name v ≡ []
      → (spec : Fields F) × (v ≡ dict spec) × Enforceable name spec
  unfolding check_property
  check_property-Enforceable name (dict spec) h =
      (spec, refl, check_spec-Enforceable name spec (ground (arith, h)) (ground (arith, h)))
  check_property-Enforceable name v h = absurd (unfold check_spec in ground (arith, h))

  check_each-Enforceable :
      (fs : Fields F) {name : String} {v : Value F}
      → check_each re fs ≡ []
      → InFields name v fs
      → (spec : Fields F) × (v ≡ dict spec) × Enforceable name spec
  unfolding check_each
  check_each-Enforceable end h i = elim i [ ]
  check_each-Enforceable (field k w fs) h here =
      check_property-Enforceable k w (nil_parts (check_property re k w) _ h).0
  check_each-Enforceable (field k w fs) h (there i) =
      check_each-Enforceable fs (nil_parts (check_property re k w) _ h).1 i

  -- Each entry of the `properties` of an admitted contract is a mapping that the rule engine can
  -- execute clause by clause: its name has no dot, a value matches its type exactly if it is of a JSON
  -- type that the type names or lists, its pattern encodes and compiles within the length budget, its enumeration is a list, and its
  -- bounds are numbers.
  pub admitted-Enforceable :
      (parse_int : String → Option ℤ) (mode : Mode) (enforced_keywords : List String)
      (capability : Option SemanticCapability) (schema properties : Fields F) {name : String}
      {v : Value F}
      → (admit_contract re parse_int mode enforced_keywords capability (dict schema)).admitted
        ≡ true
      → get "properties" schema ≡ some (dict properties)
      → InFields name v properties
      → (spec : Fields F) × (v ≡ dict spec) × Enforceable name spec
  unfolding findings check_properties
  admitted-Enforceable parse_int mode enforced_keywords capability schema properties admitted
        declared i =
      let clean =
        (admitted-iff-clean re parse_int mode enforced_keywords capability schema).0 admitted in
      let rest = (nil_parts (check_top_level_lists schema) _ clean).1 in
      let own = (nil_parts (check_properties re (get "properties" schema)) _ rest).0 in
      check_each-Enforceable properties (subst (λ o. check_properties re o ≡ []) declared own) i
