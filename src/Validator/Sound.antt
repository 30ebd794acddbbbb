-- ===== src/Validator/Sound.antt =====
-- A payload that passes conforms: what each rule lets through is what the contract asks.
use congine.Json.{
  Number, int, Value, null, bool, num, str, list, dict, Items, nil, cons, Fields, Floats, Re2,
  InItems, first, later, InFields, here, there, Result, ok, raise, get, ◌>>=◌,
}
use congine.Json.Builtins.{truthy, lt_number, eq_value, items, has_item, is_in, less, greater}
use congine.Prelude.{
  String, Bool, true, false, ◌≡◌, ◌≢◌, ◌≤◌, refl, subst, ap, ◌∙◌, some, List, [], ◌∷◌, ◌++◌, count,
  arith, string_eq, Bool-cases, Option-cases, inl, inr, false≢true,
}
use congine.Validator.{
  each, each_field, walk, check_type, check_enum, check_range, check_pattern, bound, declared,
  max_pattern_length, max_regex_value_length,
}
use congine.Validator.Conforms.{
  JsonType, string_type, number_type, integer_type, boolean_type, object_type, array_type,
  null_type, name_of, HasType, a_string, a_number, an_integer, a_boolean, an_object, an_array,
  a_null, PathPresent, arrived, step, OfType, OfAny, Allowed, clause, declared_type, Fits,
}
use congine.Validator.Local.{declares, range_keys}
use congine.Validator.Types.{name_matches, type_matches, any_matches}

-- A loop that collects nothing found nothing at any of its turns.
pub ok_nil_parts :
    {B : Type 0} (m n : Result (List B))
    → (do xs ← m; ys ← n; ok (xs ++ ys)) ≡ ok []
    → (m ≡ ok []) × (n ≡ ok [])
ok_nil_parts (ok []) (ok []) h = (refl, refl)
ok_nil_parts (ok []) (ok (y ∷ ys)) h = absurd (ground arith)
ok_nil_parts (ok []) (raise e) h = absurd (ground arith)
ok_nil_parts (ok (x ∷ xs)) (ok ys) h = absurd (ground arith)
ok_nil_parts (ok (x ∷ xs)) (raise e) h = absurd (ground arith)
ok_nil_parts (raise e) n h = absurd (ground arith)

module _ {F B : Type 0} where
  pub each_field-nil :
      (body : String → Value F → Result (List B)) {k : String} {v : Value F} {fs : Fields F}
      → InFields k v fs
      → each_field body fs ≡ ok []
      → body k v ≡ ok []
  unfolding each_field
  each_field-nil body {k} {v} (here {fs}) h = (ok_nil_parts (body k v) (each_field body fs) h).0
  each_field-nil body (there {j} {w} {fs} i) h =
      each_field-nil body i (ok_nil_parts (body j w) (each_field body fs) h).1

  pub each-items-nil :
      (body : Value F → Result (List B)) {v : Value F} {xs : Items F}
      → InItems v xs
      → each body (items xs) ≡ ok []
      → body v ≡ ok []
  unfolding each items
  each-items-nil body {v} (first {xs}) h = (ok_nil_parts (body v) (each body (items xs)) h).0
  each-items-nil body (later {w} {xs} i) h =
      each-items-nil body i (ok_nil_parts (body w) (each body (items xs)) h).1

module _ {F : Type 0} where
  pub walk-PathPresent :
      (segments : List String) (v : Value F) → walk segments v ≡ true → PathPresent segments v
  unfolding walk
  walk-PathPresent [] v h = arrived
  walk-PathPresent (s ∷ ss) (dict fs) h = elim (Option-cases (get s fs)) [
    | inl absent ↦ absurd (ground arith)
    | inr (w, found) ↦ step found (walk-PathPresent ss w (ground arith))
  ]
  walk-PathPresent (s ∷ ss) null h = absurd (ground arith)
  walk-PathPresent (s ∷ ss) (bool b) h = absurd (ground arith)
  walk-PathPresent (s ∷ ss) (num n) h = absurd (ground arith)
  walk-PathPresent (s ∷ ss) (str t) h = absurd (ground arith)
  walk-PathPresent (s ∷ ss) (list xs) h = absurd (ground arith)

  pub name_matches-HasType :
      (t : JsonType) (v : Value F) → name_matches v (name_of t) ≡ true → HasType t v
  unfolding name_matches
  name_matches-HasType string_type (str s) h = a_string s
  name_matches-HasType number_type (num n) h = a_number n
  name_matches-HasType integer_type (num (int z)) h = an_integer z
  name_matches-HasType boolean_type (bool b) h = a_boolean b
  name_matches-HasType object_type (dict fs) h = an_object fs
  name_matches-HasType array_type (list xs) h = an_array xs
  name_matches-HasType null_type null h = a_null
  name_matches-HasType _ _ h = absurd (false≢true h)

  -- What matches a declared type is of it.
  mutual
    unfolding type_matches OfType

    type_matches-OfType : (t v : Value F) → type_matches v t ≡ true → OfType t v
    type_matches-OfType (str name) v h =
        λ t e. name_matches-HasType t v (subst (λ n. name_matches v n ≡ true) e h)
    type_matches-OfType (list (cons x xs)) v h = elim (Bool-cases (type_matches v x)) [
      | inl this ↦ inl (type_matches-OfType x v this)
      | inr other ↦ inr (any_matches-OfAny xs v (ground (arith, h, other)))
    ]
    type_matches-OfType (list nil) v h = tt
    type_matches-OfType null v h = tt
    type_matches-OfType (bool b) v h = tt
    type_matches-OfType (num n) v h = tt
    type_matches-OfType (dict fs) v h = tt

    any_matches-OfAny : (xs : Items F) (v : Value F) → any_matches v xs ≡ true → OfAny xs v
    any_matches-OfAny nil v h = absurd (false≢true h)
    any_matches-OfAny (cons x xs) v h = elim (Bool-cases (type_matches v x)) [
      | inl this ↦ inl (type_matches-OfType x v this)
      | inr other ↦ inr (any_matches-OfAny xs v (ground (arith, h, other)))
    ]

module _ {F : Type 0} (fl : Floats F) where
  has_item-member :
      (v : Value F) (xs : Items F)
      → has_item fl v xs ≡ true
      → (x : Value F) × InItems x xs × (eq_value fl v x ≡ true)
  unfolding has_item
  has_item-member v nil h = absurd (false≢true h)
  has_item-member v (cons x xs) h = elim (Bool-cases (eq_value fl v x)) [
    | inl same ↦ (x, first, same)
    | inr other ↦
        let (y, i, same) = has_item-member v xs (ground (arith, other)) in (y, later i, same)
  ]

  check_type-matches :
      (payload : Fields F) (name : String) (spec v t : Value F)
      → get name payload ≡ some v
      → declared "type" null spec ≡ t
      → check_type fl payload name spec ≡ ok []
      → v ≢ null
      → truthy fl t ≡ true
      → type_matches v t ≡ true
  unfolding check_type
  check_type-matches payload name spec v t found declares h ne so =
      ground (arith, found, declares, so, h, ne)

  declared-type : (spec t : Value F) → declared_type spec ≡ some t → declared "type" null spec ≡ t
  declared-type (dict fs) t h = ground (arith, h)
  declared-type spec t h = ground (arith, h)

  is_in-Allowed : (v e : Value F) → is_in fl v e ≡ ok true → Allowed fl v e
  unfolding is_in
  is_in-Allowed v (list xs) h = has_item-member v xs (ground (arith, h))
  is_in-Allowed (str part) (str text) h = ground (arith, h)
  is_in-Allowed (str key) (dict fs) h = ground (arith, h)
  is_in-Allowed v e h = absurd (ground (arith, h))

  check_enum-is_in :
      (payload spec : Fields F) (name : String) (v e : Value F)
      → get name payload ≡ some v
      → get "enum" spec ≡ some e
      → check_enum fl payload name (dict spec) ≡ ok []
      → is_in fl v e ≡ ok true
  unfolding check_enum
  check_enum-is_in payload spec name v e found declares h = by_answer (is_in fl v e) refl
    where
      by_answer : (r : Result Bool) → is_in fl v e ≡ r → r ≡ ok true
      by_answer (ok true) a = refl
      by_answer (ok false) a = absurd (ground (arith, found, declares, h, a))
      by_answer (raise x) a = absurd (ground (arith, found, declares, h, a))

  check_range-at_least :
      (payload : Fields F) (spec : Value F) (name : String) (n m : Number F)
      → get name payload ≡ some (num n)
      → bound "min" "minimum" spec ≡ num m
      → check_range fl payload name spec ≡ ok []
      → lt_number fl n m ≡ false
  unfolding check_range less
  check_range-at_least payload spec name n m found low h = ground (arith, found, low, h)

  check_range-at_most :
      (payload : Fields F) (spec : Value F) (name : String) (n m : Number F)
      → get name payload ≡ some (num n)
      → bound "max" "maximum" spec ≡ num m
      → check_range fl payload name spec ≡ ok []
      → lt_number fl m n ≡ false
  unfolding check_range less greater
  check_range-at_most payload spec name n m found high h = ground (arith, found, high, h)

  module _ (re : Re2) where
    check_pattern-matched :
        (payload spec : Fields F) (name s pattern : String)
        → get name payload ≡ some (str s)
        → get "pattern" spec ≡ some (str pattern)
        → pattern ≢ ""
        → check_pattern fl re payload name (dict spec) ≡ ok []
        → (re.fullmatch pattern s ≡ true)
          × ((count s ≤ max_regex_value_length) × (count pattern ≤ max_pattern_length))
    unfolding check_pattern
    check_pattern-matched payload spec name s pattern found declares ne h =
        ground (arith, found, declares, h, string_eq.beq_iff pattern "")

    -- What the rules that loop over properties let through for one of them.
    pub record Checked (payload : Fields F) (name : String) (spec : Value F) : Type 0 where
      pub type_ok : check_type fl payload name spec ≡ ok []
      pub enum_ok : declares ("enum" ∷ []) spec ≡ true → check_enum fl payload name spec ≡ ok []
      pub range_ok : declares range_keys spec ≡ true → check_range fl payload name spec ≡ ok []
      pub pattern_ok :
          declares ("pattern" ∷ []) spec ≡ true → check_pattern fl re payload name spec ≡ ok []

    Checked-Allowed :
        (payload : Fields F) (name : String) (spec v e : Value F)
        → Checked payload name spec
        → get name payload ≡ some v
        → clause "enum" spec ≡ some e
        → Allowed fl v e
    unfolding declares
    Checked-Allowed payload name (dict spec) v e c found h =
        is_in-Allowed v e
          (check_enum-is_in payload spec name v e found h (c.enum_ok (ground (arith, h))))
    Checked-Allowed payload name spec v e c found h = absurd (ground (arith, h))

    Checked-matched :
        (payload : Fields F) (name : String) (spec : Value F) (s pattern : String)
        → Checked payload name spec
        → get name payload ≡ some (str s)
        → clause "pattern" spec ≡ some (str pattern)
        → pattern ≢ ""
        → (re.fullmatch pattern s ≡ true)
          × ((count s ≤ max_regex_value_length) × (count pattern ≤ max_pattern_length))
    unfolding declares
    Checked-matched payload name (dict spec) s pattern c found h ne =
        check_pattern-matched payload spec name s pattern found h ne
          (c.pattern_ok (ground (arith, h)))
    Checked-matched payload name spec s pattern c found h ne = absurd (ground (arith, h))

    pub Checked-Fits :
        (payload : Fields F) (name : String) (spec v : Value F)
        → Checked payload name spec
        → get name payload ≡ some v
        → Fits fl re spec v
    Checked-Fits payload name spec v c found = record {
      typed = λ ne t h so.
          type_matches-OfType t v (
            check_type-matches payload name spec v t found (declared-type spec t h) c.type_ok ne
              so);
      allowed = λ e h. Checked-Allowed payload name spec v e c found h;
      at_least = λ n m e low.
          check_range-at_least payload spec name n m (found ∙ ap some e) low
            (c.range_ok (bounded_below spec low));
      at_most = λ n m e high.
          check_range-at_most payload spec name n m (found ∙ ap some e) high
            (c.range_ok (bounded_above spec high));
      matched = λ s pattern e h ne.
          Checked-matched payload name spec s pattern c (found ∙ ap some e) h ne;
    }
      where
        bounded_below :
            (spec : Value F) {m : Number F}
            → bound "min" "minimum" spec ≡ num m
            → declares range_keys spec ≡ true
        bounded_below (dict fs) h = unfold declares in ground (arith, h)
        bounded_below spec h = absurd (ground (arith, h))

        bounded_above :
            (spec : Value F) {m : Number F}
            → bound "max" "maximum" spec ≡ num m
            → declares range_keys spec ≡ true
        bounded_above (dict fs) h = unfold declares in ground (arith, h)
        bounded_above spec h = absurd (ground (arith, h))
