-- ===== src/Admission/Engine.antt =====
-- What admission does for the rule engine: an admitted contract never makes a rule raise.
use congine.Admission.Grammar.{
  Finding, found, check_entries, check_names, check_top_level_lists, check_spec, check_property,
  check_each, check_properties, check_bound, if_present,
}
use congine.Admission.Grammar as Grammar
use congine.Json.{
  Number, Value, null, num, str, list, dict, Items, nil, cons, Fields, end, field, Floats, Re2,
  Result, ok, raise, get,
}
use congine.Json.Builtins.{items, is_in, less, greater, len}
use congine.Models.{BreachDetail}
use congine.Prelude.{
  ap, ◌∙◌, Option, ◌⊎◌, String, Bool, true, false, ◌≡◌, refl, some, List, [], ◌∷◌, ◌++◌, arith,
  Bool-cases, Option-cases, inl, inr, subst, string_eq,
}
use congine.Validator.{each, each_field, bound, check_type, check_enum, check_range, check_pattern}
use congine.Validator.Local.{declares, keep}

-- A call that returns.
abbrev pub Returns : {A : Type 0} → Result A → Type 0
Returns {A} m = (a : A) × (m ≡ ok a)

abbrev pub returns : {A : Type 0} → Result A → Bool
returns (ok a) = true
returns (raise e) = false

pub returned : {A : Type 0} (m : Result A) → returns m ≡ true → Returns m
returned (ok a) h = (a, refl)
returned (raise e) h = absurd (ground (arith, h))

pub nil_parts : {A : Type 0} (xs ys : List A) → xs ++ ys ≡ [] → (xs ≡ []) × (ys ≡ [])
nil_parts [] ys h = (refl, h)
nil_parts (x ∷ xs) ys h = absurd (ground (arith, h))

module _ {F : Type 0} where
  pub each-Returns-entries :
      (body : Value F → Result (List BreachDetail)) (path : String) (xs : Items F)
      → ((name : String) → Returns (body (str name)))
      → check_entries path xs ≡ []
      → Returns (each body (items xs))
  unfolding check_entries each items
  each-Returns-entries body path nil b h = ([], refl)
  each-Returns-entries body path (cons (str name) xs) b h =
      let (found, e) = b name in
      let (rest, e') = each-Returns-entries body path xs b h in (found ++ rest, rw e (rw e' refl))
  each-Returns-entries body path (cons x xs) b h = absurd (ground (arith, h))

  pub each_field-Returns-all :
      (body : String → Value F → Result (List BreachDetail)) (fs : Fields F)
      → ((k : String) (v : Value F) → Returns (body k v))
      → Returns (each_field body fs)
  unfolding each_field
  each_field-Returns-all body end b = ([], refl)
  each_field-Returns-all body (field k v fs) b =
      let (found, e) = b k v in
      let (rest, e') = each_field-Returns-all body fs b in (found ++ rest, rw e (rw e' refl))

  abbrev pub Numeric : String → Fields F → Type 0
  Numeric key spec = (v : Value F) → get key spec ≡ some v → (n : Number F) × (v ≡ num n)

  -- A declaration in which admission finds nothing.
  pub record Sane (re : Re2) (spec : Fields F) : Type 0 where
    pub enum_list : (v : Value F) → get "enum" spec ≡ some v → (xs : Items F) × (v ≡ list xs)
    pub pattern_text :
        (v : Value F)
        → get "pattern" spec ≡ some v
        → (s : String) × (v ≡ str s) × (re.encodes s ≡ true)
    pub min_number : Numeric "min" spec
    pub max_number : Numeric "max" spec
    pub minimum_number : Numeric "minimum" spec
    pub maximum_number : Numeric "maximum" spec

  enum_of :
      (name : String) (v : Value F)
      → Grammar.check_enum name v ≡ []
      → (xs : Items F) × (v ≡ list xs)
  unfolding Grammar.check_enum
  enum_of name (list xs) h = (xs, refl)
  enum_of name v h = absurd (ground (arith, h))

  text_of :
      (re : Re2) (name : String) (v : Value F)
      → Grammar.check_pattern re name v ≡ []
      → (s : String) × (v ≡ str s) × (re.encodes s ≡ true)
  unfolding Grammar.check_pattern Grammar.check_regex_value
  text_of re name (str s) h = (s, refl, ground (arith, h))
  text_of re name v h = absurd (ground (arith, h))

  number_in :
      (name key : String) (v : Value F)
      → check_bound name key (some v) ≡ []
      → (n : Number F) × (v ≡ num n)
  unfolding check_bound
  number_in name key (num n) h = (n, refl)
  number_in name key v h = absurd (ground (arith, h))

  pub check_spec-Sane :
      (re : Re2) (name : String) (spec : Fields F)
      → check_spec re name (dict spec) ≡ []
      → Sane re spec
  unfolding check_spec Grammar.check_range
  check_spec-Sane re name spec h =
      let (_, h1) = nil_parts (if_present (Grammar.check_type name) (get "type" spec)) _ h in
      let (p, h2) =
        nil_parts (if_present (Grammar.check_pattern re name) (get "pattern" spec)) _ h1 in
      let (e, h3) = nil_parts (if_present (Grammar.check_enum name) (get "enum" spec)) _ h2 in
      let (r1, h4) = nil_parts (check_bound name "min" (get "min" spec)) _ h3 in
      let (r2, h5) = nil_parts (check_bound name "max" (get "max" spec)) _ h4 in
      let (r3, r4) = nil_parts (check_bound name "minimum" (get "minimum" spec)) _ h5 in
      record {
        enum_list =
            λ v g. enum_of name v (subst (λ o. if_present (Grammar.check_enum name) o ≡ []) g e);
        pattern_text = λ v g.
            text_of re name v (subst (λ o. if_present (Grammar.check_pattern re name) o ≡ []) g p);
        min_number =
            λ v g. number_in name "min" v (subst (λ o. check_bound name "min" o ≡ []) g r1);
        max_number =
            λ v g. number_in name "max" v (subst (λ o. check_bound name "max" o ≡ []) g r2);
        minimum_number =
            λ v g. number_in name "minimum" v (subst (λ o. check_bound name "minimum" o ≡ []) g r3);
        maximum_number =
            λ v g. number_in name "maximum" v (subst (λ o. check_bound name "maximum" o ≡ []) g r4);
      }

  -- the entry of a mapping of declarations in which admission finds nothing
  property_dict :
      (re : Re2) (name : String) (v : Value F)
      → check_property re name v ≡ []
      → (spec : Fields F) × (v ≡ dict spec) × Sane re spec
  unfolding check_property
  property_dict re name (dict spec) h =
      (spec, refl, check_spec-Sane re name spec (ground (arith, h)))
  property_dict re name v h = absurd (unfold check_spec in ground (arith, h))

  -- A rule over the declarations that it keeps returns where it does for each sane declaration.
  pub each_field-Returns :
      (re : Re2) (wanted : List String) (body : String → Value F → Result (List BreachDetail))
      (fs : Fields F)
      → ((k : String) (spec : Fields F)
          → declares wanted (dict spec) ≡ true
          → Sane re spec
          → Returns (body k (dict spec)))
      → check_each re fs ≡ []
      → Returns (each_field body (keep wanted fs))
  unfolding each_field keep check_each
  each_field-Returns re wanted body end b h = ([], refl)
  each_field-Returns re wanted body (field k v fs) b h =
      let (own, later) = nil_parts (check_property re k v) _ h in
      let (spec, e, sane) = property_dict re k v own in
      let (rest, e') = each_field-Returns re wanted body fs b later in
      elim (Bool-cases (declares wanted v)) [
        | inl kept ↦
            let (found, e'') = b k spec (subst (λ x. declares wanted x ≡ true) e kept) sane in
            (found ++ rest, rw kept (rw e (rw e'' (rw e' refl))))
        | inr dropped ↦ (rest, rw dropped e')
      ]

  -- the bound that a sane declaration gives: none, or a number
  abbrev IsBound : Value F → Type 0
  IsBound v = (v ≡ null) ⊎ ((n : Number F) × (v ≡ num n))

  Numeric-IsBound :
      (short long : String) (spec : Fields F)
      → Numeric short spec
      → Numeric long spec
      → IsBound (bound short long (dict spec))
  Numeric-IsBound short long spec s l = elim (Option-cases (get short spec)) [
    | inr (v, e) ↦ inr ((s v e).0, ground (arith, e, (s v e).1))
    | inl absent ↦ elim (Option-cases (get long spec)) [
      | inr (v, e) ↦ inr ((l v e).0, ground (arith, absent, e, (l v e).1))
      | inl also ↦ inl (ground (arith, absent, also))
    ]
  ]

module _ {F : Type 0} (fl : Floats F) (re : Re2) (payload : Fields F) where
  pub check_type-returns :
      (name : String) (spec : Value F) → returns (check_type fl payload name spec) ≡ true
  unfolding check_type
  check_type-returns name spec = ground arith

  pub check_enum-returns :
      (name : String) (spec : Fields F)
      → declares ("enum" ∷ []) (dict spec) ≡ true
      → Sane re spec
      → returns (check_enum fl payload name (dict spec)) ≡ true
  unfolding check_enum is_in declares
  check_enum-returns name spec d sane = elim (Option-cases (get "enum" spec)) [
    | inl absent ↦ absurd (ground (arith, d, absent))
    | inr (allowed, e) ↦ ground (arith, e, (sane.enum_list allowed e).1)
  ]

  pub check_range-returns :
      (name : String) (spec : Fields F)
      → Sane re spec
      → returns (check_range fl payload name (dict spec)) ≡ true
  unfolding check_range less greater
  check_range-returns name spec sane =
      elim (Numeric-IsBound "min" "minimum" spec sane.min_number sane.minimum_number) [
        | inl low ↦
            elim (Numeric-IsBound "max" "maximum" spec sane.max_number sane.maximum_number) [
              | inl high ↦ ground (arith, low, high)
              | inr (m, high) ↦ ground (arith, low, high)
            ]
        | inr (n, low) ↦
            elim (Numeric-IsBound "max" "maximum" spec sane.max_number sane.maximum_number) [
              | inl high ↦ ground (arith, low, high)
              | inr (m, high) ↦ ground (arith, low, high)
            ]
      ]

  pub check_pattern-returns :
      (name : String) (spec : Fields F)
      → declares ("pattern" ∷ []) (dict spec) ≡ true
      → Sane re spec
      → ((s : String) → get name payload ≡ some (str s) → re.encodes s ≡ true)
      → returns (check_pattern fl re payload name (dict spec)) ≡ true
  unfolding check_pattern len declares
  check_pattern-returns name spec d sane encodes = elim (Option-cases (get "pattern" spec)) [
    | inl absent ↦ absurd (ground (arith, d, absent))
    | inr (pattern, e) ↦
        let (s, text, encoded) = sane.pattern_text pattern e in
        by_value s (e ∙ ap some text) encoded (get name payload) refl
  ]
    where
      by_value :
          (pattern : String)
          → get "pattern" spec ≡ some (str pattern)
          → re.encodes pattern ≡ true
          → (o : Option (Value F)) → get name payload ≡ o
          → returns (check_pattern fl re payload name (dict spec)) ≡ true
      by_value pattern e encoded (some (str s)) f = ground (arith, e, encoded, f, encodes s f)
      by_value pattern e encoded o f = ground (arith, e, encoded, f)
