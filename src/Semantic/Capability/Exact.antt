-- ===== src/Semantic/Capability/Exact.antt =====
-- What the derived capability enforces, exactly.
use congine.Prelude.{
  String, ◌≡◌, refl, ap, ◌∙◌, subst, Bool, true, false, not, ◌&&◌, ◌||◌, Option, none, some, List,
  [], ◌∷◌, ◌++◌, ◌==◌, string_eq, contains, if◌then◌else◌, Bool-cases, inl, inr, arith,
}
use congine.Json.{Value, Fields, has}
use congine.Json.Builtins.{is_bool}
use congine.Vocabulary.{enforces_format, enforces_exclusive_bound}
use congine.Semantic.Capability.{
  Dialect, draft4, draft6, draft7, draft201909, draft202012, ValidatorClass, derive_capability,
  enforced, discard, composed, base_class, composed_keywords, container_keywords,
}

contains-append :
    (k : String) (xs ys : List String) → contains k (xs ++ ys) ≡ contains k xs || contains k ys
unfolding contains
contains-append k [] ys = refl
contains-append k (x ∷ xs) ys = elim (Bool-cases (x == k)) [
  | inl e ↦ rw (e) refl
  | inr e ↦ rw (e) (contains-append k xs ys)
]

contains-discard_itself : (d : String) (xs : List String) → contains d (discard d xs) ≡ false
unfolding contains discard
contains-discard_itself d [] = refl
contains-discard_itself d (x ∷ xs) = elim (Bool-cases (x == d)) [
  | inl e ↦ rw (e) (contains-discard_itself d xs)
  | inr e ↦ rw (e) (rw (e) (contains-discard_itself d xs))
]

contains-discard_other :
    (k d : String) (xs : List String) → (d == k) ≡ false → contains k (discard d xs) ≡ contains k xs
unfolding contains discard
contains-discard_other k d [] other = refl
contains-discard_other k d (x ∷ xs) other = elim (Bool-cases (x == d)) [
  | inl e ↦
      let same : x ≡ d = (string_eq.beq_iff x d).0 e in
      rw (e) (rw (ap (λ s. s == k) same ∙ other) (contains-discard_other k d xs other))
  | inr e ↦ rw (e) (ap (λ b. x == k || b) (contains-discard_other k d xs other))
]

-- the dialects from 2019-09 on
abbrev since_2019 : Option Dialect → Bool
since_2019 (some draft201909) = true
since_2019 (some draft202012) = true
since_2019 _ = false

-- the keywords that another keyword's handler asserts
abbrev carried : List String → Option Dialect → String → Bool
carried handlers base k =
    (contains "if" handlers && contains k ("then" ∷ "else" ∷ []))
    || (contains "contains" handlers
        && (since_2019 base && contains k ("minContains" ∷ "maxContains" ∷ [])))

contains-composed :
    (handlers : List String) (base : Option Dialect) (k : String)
    → contains k (composed handlers base composed_keywords) ≡ carried handlers base k
unfolding contains composed
contains-composed handlers none k = ground arith
contains-composed handlers (some draft4) k = ground arith
contains-composed handlers (some draft6) k = ground arith
contains-composed handlers (some draft7) k = ground arith
contains-composed handlers (some draft201909) k = ground arith
contains-composed handlers (some draft202012) k = ground arith

-- a keyword has a handler, is a container that `$ref` resolves into, or is asserted by another handler
abbrev asserted : ValidatorClass → String → Bool
asserted cls k =
    contains k cls.handlers
    || ((contains "$ref" cls.handlers && contains k container_keywords)
        || carried cls.handlers (base_class cls) k)

-- what is enforced: `format` only while formats are checked
abbrev pub advertises : ValidatorClass → Bool → String → Bool
advertises cls format_checking k =
    if format_checking then asserted cls k else not ("format" == k) && asserted cls k

if-contains :
    (b : Bool) (k : String) (ks : List String)
    → contains k (if b then ks else []) ≡ b && contains k ks
unfolding contains
if-contains true k ks = refl
if-contains false k ks = refl

contains-enforced : (cls : ValidatorClass) (k : String) → contains k (enforced cls) ≡ asserted cls k
unfolding enforced
contains-enforced cls k = rw (contains-append, contains-append, if-contains, contains-composed) refl

advertises-enforced :
    (cls : ValidatorClass) (checking : Bool) (k : String)
    → contains k (derive_capability cls checking).enforced_keywords ≡ advertises cls checking k
unfolding derive_capability
advertises-enforced cls true k = contains-enforced cls k
advertises-enforced cls false k = elim (Bool-cases ("format" == k)) [
  | inl e ↦
      let same : "format" ≡ k = (string_eq.beq_iff "format" k).0 e in
      rw (e) (
        subst (λ s. contains s (discard "format" (enforced cls)) ≡ false) same
          (contains-discard_itself "format" (enforced cls)))
  | inr e ↦ rw (e) (contains-discard_other k "format" (enforced cls) e ∙ contains-enforced cls k)
]

formats :
    (cls : ValidatorClass) (checking : Bool) (name : String)
    → enforces_format (derive_capability cls checking) name ≡ checking && contains name cls.checkers
unfolding derive_capability enforces_format
formats cls true name = refl
formats cls false name = refl

-- the two forms of an exclusive lower bound
abbrev pub lower_bound : {F : Type 0} → ValidatorClass → Value F → Fields F → Bool
lower_bound cls value node =
    if contains "exclusiveMinimum" cls.handlers
    then not (is_bool value)
    else contains "minimum" cls.handlers && (is_bool value && has "minimum" node)

nothing_else : (a b c d e : Bool) → a || ((b && false) || ((c && false) || (d && (e && false)))) ≡ a
nothing_else a b c d e = ground arith

asserted-lower :
    (cls : ValidatorClass)
    → asserted cls "exclusiveMinimum" ≡ contains "exclusiveMinimum" cls.handlers
unfolding contains
asserted-lower cls =
    nothing_else (contains "exclusiveMinimum" cls.handlers) (contains "$ref" cls.handlers)
      (contains "if" cls.handlers) (contains "contains" cls.handlers) (since_2019 (base_class cls))

advertises-lower :
    (cls : ValidatorClass) (checking : Bool)
    → advertises cls checking "exclusiveMinimum" ≡ contains "exclusiveMinimum" cls.handlers
advertises-lower cls true = asserted-lower cls
advertises-lower cls false = asserted-lower cls

lower_bounds :
    {F : Type 0} (cls : ValidatorClass) (checking : Bool) (value : Value F) (node : Fields F)
    → enforces_exclusive_bound (derive_capability cls checking) "exclusiveMinimum" value node
      ≡ lower_bound cls value node
unfolding derive_capability enforces_exclusive_bound contains
lower_bounds cls checking value node =
    rw (advertises-enforced cls checking "exclusiveMinimum", advertises-lower cls checking)
      (by_value (contains "exclusiveMinimum" cls.handlers) (contains "minimum" cls.handlers)
        (is_bool value) (has "minimum" node))
  where
    by_value :
        (own bound boolean sibling : Bool)
        → (if own
            then not boolean
            else if not (bound && not own) || not boolean
            then false
            else sibling)
          ≡ (if own then not boolean else bound && (boolean && sibling))
    by_value own bound boolean sibling = ground arith

-- The capability derived for a validator class enforces exactly the keywords that have a handler, or
-- are containers that a handled `$ref` resolves into, or are asserted by the handler of `if` or, from
-- 2019-09 on, of `contains`, less `format` while formats are not checked; it enforces exactly the
-- formats of the class's checker, while formats are checked; and it enforces an `exclusiveMinimum` as a
-- keyword with a handler if its value is no Boolean, and without a handler as a Boolean beside a
-- handled `minimum`.
pub derive_capability-exact :
    {F : Type 0} (cls : ValidatorClass) (checking : Bool) (keyword name : String) (value : Value F)
    (node : Fields F)
    → (contains keyword (derive_capability cls checking).enforced_keywords
        ≡ advertises cls checking keyword)
      × ((enforces_format (derive_capability cls checking) name
            ≡ checking && contains name cls.checkers)
          × (enforces_exclusive_bound (derive_capability cls checking) "exclusiveMinimum" value node
              ≡ lower_bound cls value node))
derive_capability-exact cls checking keyword name value node = (
  advertises-enforced cls checking keyword,
  (formats cls checking name, lower_bounds cls checking value node),
)
