-- ===== src/Json.antt =====
-- The Python values that a JSON document decodes to, and what Python's builtins do with them.
-- Payloads and contract schemas of libs/congine-sdk/src/congine_core are such values. Floats, `str`
-- of a value and the RE2 engine are not in the repository: `Floats` and `Re2` stand for them.
-- Tuples do not occur in decoded JSON, and keys of a dict are strings.
pub mod Text
pub mod Builtins
use congine.Prelude.{
  ℕ, String, Bool, true, false, Option, none, some, List, [], ◌∷◌, ◌==◌, string_eq, if◌then◌else◌,
  ltb, nat_beq,
}

-- `negsuc n` is -(n + 1).
pub data ℤ : Type 0 where
  pos : ℕ → ℤ
  negsuc : ℕ → ℤ

pub data Number (F : Type 0) : Type 0 where
  int : ℤ → Number F
  float : F → Number F

mutual
  pub data Value (F : Type 0) : Type 0 where
    null : Value F
    bool : Bool → Value F
    num : Number F → Value F
    str : String → Value F
    list : Items F → Value F
    dict : Fields F → Value F

  pub data Items (F : Type 0) : Type 0 where
    nil : Items F
    cons : Value F → Items F → Items F

  pub data Fields (F : Type 0) : Type 0 where
    end : Fields F
    field : String → Value F → Fields F → Fields F

-- Python's float comparisons, its truth test of a float, and `str` of a value.
pub record Floats (F : Type 0) : Type 0 where
  pub lt_float : F → F → Bool
  pub lt_int_float : ℤ → F → Bool
  pub lt_float_int : F → ℤ → Bool
  pub eq_float : F → F → Bool
  pub eq_int_float : ℤ → F → Bool
  pub is_zero : F → Bool
  pub str_of : Value F → String

-- The RE2 engine: whether a text encodes as UTF-8 (one with a lone surrogate does not, and `re2` raises
-- UnicodeEncodeError on it); of texts that do, `re2.compile`, as a test whether it raises no `re2.error`,
-- and `fullmatch` of a compiled pattern.
pub record Re2 : Type 0 where
  pub encodes : String → Bool
  pub compiles : String → Bool
  pub fullmatch : String → String → Bool

-- What a Python call raises, as far as the program tells exceptions apart.
pub data Exc : Type 0 where
  attribute_error type_error value_error memory_error recursion_error : Exc
  load_shed timed_out : Exc
  contract_not_found validation_error lifecycle_error sync_error os_error : Exc

pub data Result {ℓ} (A : Type ℓ) : Type ℓ where
  ok : A → Result A
  raise : Exc → Result A

infixl 5 ◌>>=◌
abbrev pub ◌>>=◌ {ℓ κ} : {A : Type ℓ} {B : Type κ} → Result A → (A → Result B) → Result B
ok a >>= f = f a
raise e >>= f = raise e

module _ {F : Type 0} where
  -- `fs.get(k)`
  unfoldable pub get : String → Fields F → Option (Value F)
  get k end = none
  get k (field j v fs) = if j == k then some v else get k fs

  abbrev pub present : Option (Value F) → Bool
  present none = false
  present (some v) = true

  -- `k in fs`
  abbrev pub has : String → Fields F → Bool
  has k fs = present (get k fs)

  -- `fs.get(k, default)`
  abbrev pub get_or : String → Value F → Fields F → Value F
  get_or k default fs = elim (get k fs) [ none ↦ default | some v ↦ v ]

  -- An entry of a dict, as `items()` yields it.
  pub data InFields (k : String) (v : Value F) : Fields F → Type 0 where
    here : {fs : Fields F} → InFields k v (field k v fs)
    there :
        {j : String} {w : Value F} {fs : Fields F} → InFields k v fs → InFields k v (field j w fs)

  pub data InItems (v : Value F) : Items F → Type 0 where
    first : {xs : Items F} → InItems v (cons v xs)
    later : {w : Value F} {xs : Items F} → InItems v xs → InItems v (cons w xs)
