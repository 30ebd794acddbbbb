-- ===== src/Json/Builtins.antt =====
-- Python's `bool`, `==`, `<`, `in`, `len`, `for` and `isinstance` on decoded JSON.
use congine.Json.{
  ℤ, pos, negsuc, Number, int, float, Value, null, bool, num, str, list, dict, Items, nil, cons,
  Fields, end, field, Floats, Result, ok, raise, type_error, attribute_error, get, has,
}
use congine.Json.Text.{has_text, chars}
use congine.Prelude.{
  ℕ, suc, String, Bool, true, false, not, ◌&&◌, ◌||◌, Option, none, some, List, [], ◌∷◌, map, ◌==◌,
  string_eq, ltb, nat_beq, count,
}

abbrev pub lt_ℤ : ℤ → ℤ → Bool
lt_ℤ (pos a) (pos b) = ltb a b
lt_ℤ (pos a) (negsuc b) = false
lt_ℤ (negsuc a) (pos b) = true
lt_ℤ (negsuc a) (negsuc b) = ltb b a

abbrev pub eq_ℤ : ℤ → ℤ → Bool
eq_ℤ (pos a) (pos b) = nat_beq a b
eq_ℤ (negsuc a) (negsuc b) = nat_beq a b
eq_ℤ _ _ = false

-- `int(b)`
abbrev pub int_of : Bool → ℤ
int_of true = pos 1
int_of false = pos 0

module _ {F : Type 0} where
  abbrev pub is_null : Value F → Bool
  is_null null = true
  is_null _ = false

  -- `isinstance(v, bool)`
  abbrev pub is_bool : Value F → Bool
  is_bool (bool b) = true
  is_bool _ = false

  -- `isinstance(v, int)`: a bool is an int.
  abbrev pub is_int : Value F → Bool
  is_int (bool b) = true
  is_int (num (int z)) = true
  is_int _ = false

  -- `isinstance(v, (int, float))`
  abbrev pub is_number : Value F → Bool
  is_number (bool b) = true
  is_number (num n) = true
  is_number _ = false

  abbrev pub is_str : Value F → Bool
  is_str (str s) = true
  is_str _ = false

  abbrev pub is_list : Value F → Bool
  is_list (list xs) = true
  is_list _ = false

  abbrev pub is_dict : Value F → Bool
  is_dict (dict fs) = true
  is_dict _ = false

  -- `v.items()` of what is no dict raises.
  abbrev pub fields_of : Value F → Result (Fields F)
  fields_of (dict fs) = ok fs
  fields_of _ = raise attribute_error

  unfoldable pub items : Items F → List (Value F)
  items nil = []
  items (cons x xs) = x ∷ items xs

  unfoldable pub field_names : Fields F → List String
  field_names end = []
  field_names (field k v fs) = k ∷ field_names fs

  -- `for x in v`
  unfoldable pub iterate : Value F → Result (List (Value F))
  unfolding items field_names
  iterate (list xs) = ok (items xs)
  iterate (str s) = ok (map str (chars s))
  iterate (dict fs) = ok (map str (field_names fs))
  iterate _ = raise type_error

  unfoldable pub length_items : Items F → ℕ
  length_items nil = 0
  length_items (cons x xs) = suc (length_items xs)

  unfoldable pub length_fields : Fields F → ℕ
  length_fields end = 0
  length_fields (field k v fs) = suc (length_fields fs)

  -- `len(v)`
  unfoldable pub len : Value F → Result ℕ
  unfolding length_items length_fields
  len (str s) = ok (count s)
  len (list xs) = ok (length_items xs)
  len (dict fs) = ok (length_fields fs)
  len _ = raise type_error

module _ {F : Type 0} (fl : Floats F) where
  open fl use {lt_float, lt_int_float, lt_float_int, eq_float, eq_int_float, is_zero}

  -- `bool(v)`
  abbrev pub truthy : Value F → Bool
  truthy null = false
  truthy (bool b) = b
  truthy (num (int z)) = not (eq_ℤ z (pos 0))
  truthy (num (float x)) = not (is_zero x)
  truthy (str s) = not (s == "")
  truthy (list nil) = false
  truthy (list (cons x xs)) = true
  truthy (dict end) = false
  truthy (dict (field k v fs)) = true

  abbrev pub lt_number : Number F → Number F → Bool
  lt_number (int a) (int b) = lt_ℤ a b
  lt_number (int a) (float y) = lt_int_float a y
  lt_number (float x) (int b) = lt_float_int x b
  lt_number (float x) (float y) = lt_float x y

  abbrev pub eq_number : Number F → Number F → Bool
  eq_number (int a) (int b) = eq_ℤ a b
  eq_number (int a) (float y) = eq_int_float a y
  eq_number (float x) (int b) = eq_int_float b x
  eq_number (float x) (float y) = eq_float x y

  -- a number, or a bool as the int that it is
  abbrev pub number_of : Value F → Option (Number F)
  number_of (bool b) = some (int (int_of b))
  number_of (num n) = some n
  number_of _ = none

  -- `a < b` for a number `a`
  unfoldable pub less : Number F → Value F → Result Bool
  less a b = elim (number_of b) [ none ↦ raise type_error | some n ↦ ok (lt_number a n) ]

  -- `b < a` for a number `a`, spelled `a > b`
  unfoldable pub greater : Number F → Value F → Result Bool
  greater a b = elim (number_of b) [ none ↦ raise type_error | some n ↦ ok (lt_number n a) ]

  abbrev eq_numbers : Option (Number F) → Option (Number F) → Bool
  eq_numbers (some a) (some b) = eq_number a b
  eq_numbers _ _ = false

  -- `a == b`; the shortcut that Python takes for one and the same object matters for NaN alone.
  unfoldable mutual
    pub eq_value : Value F → Value F → Bool
    eq_value null v = is_null v
    eq_value (bool a) v = eq_numbers (some (int (int_of a))) (number_of v)
    eq_value (num a) v = eq_numbers (some a) (number_of v)
    eq_value (str a) (str b) = a == b
    eq_value (str a) _ = false
    eq_value (list xs) (list ys) = eq_items xs ys
    eq_value (list xs) _ = false
    eq_value (dict fs) (dict gs) = nat_beq (length_fields fs) (length_fields gs) && eq_fields fs gs
    eq_value (dict fs) _ = false

    pub eq_items : Items F → Items F → Bool
    eq_items nil nil = true
    eq_items (cons x xs) (cons y ys) = eq_value x y && eq_items xs ys
    eq_items _ _ = false

    pub eq_fields : Fields F → Fields F → Bool
    eq_fields end gs = true
    eq_fields (field k v fs) gs = elim (get k gs) [
      | none ↦ false
      | some w ↦ eq_value v w && eq_fields fs gs
    ]

  unfoldable pub has_item : Value F → Items F → Bool
  has_item v nil = false
  has_item v (cons x xs) = eq_value v x || has_item v xs

  -- `v in container`
  unfoldable pub is_in : Value F → Value F → Result Bool
  is_in v (list xs) = ok (has_item v xs)
  is_in (str t) (str s) = ok (has_text t s)
  is_in v (str s) = raise type_error
  is_in (str k) (dict fs) = ok (has k fs)
  is_in (list xs) (dict fs) = raise type_error
  is_in (dict gs) (dict fs) = raise type_error
  is_in v (dict fs) = ok false
  is_in v _ = raise type_error
