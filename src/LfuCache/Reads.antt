-- ===== src/LfuCache/Reads.antt =====
-- What `get`, `put`, `exists` and a sweep of the LFU cache do, on every valid state.
use congine.Dict
use congine.Dict.{get-put, get-remove, size-put, size-remove-lt, size-remove-le, has-get, first_key}
use congine.LfuCache.{LfuCache, evict_key, get, is_expired}
use congine.LfuCache.Steps.{bumped, bumped-Agrees, increment_freq-bumped}
use congine.LfuCache.Valid.{Agrees, IsValid, evict_key-Agrees}
use congine.Prelude.{
  ℕ, String, ◌≡◌, refl, true, some, none, arith, nat_eq, string_eq, Option, Option-cases,
  Bool-cases, inl, inr, if◌then◌else◌, sym, ◌∙◌,
}

-- What a read may return of an entry: nothing of one whose deadline has passed.
abbrev pub live : {V : Type 0} → ℕ → Option (V × ℕ) → Option V
live now none = none
live now (some (schema, expire_at)) = if is_expired now expire_at then none else some schema

module _ {V : Type 0} where
  pub evict_key-IsValid : (c : LfuCache V) (key : String) → IsValid c → IsValid (evict_key c key)
  evict_key-IsValid c key v = record {
    agrees = evict_key-Agrees c key v.agrees;
    bounded = unfold evict_key in omega (arith, size-remove-le key c.key_to_value, v.bounded);
  }

  pub value_has_freq :
      (c : LfuCache V) (key : String)
      → Agrees c
      → Dict.has key c.key_to_value ≡ true
      → (f : ℕ) × (Dict.get key c.key_to_freq ≡ some f)
  value_has_freq c key v h = has-get key c.key_to_freq (sym (v.same_keys key) ∙ h)

  pub bumped-IsValid :
      (c : LfuCache V) (key : String) (f : ℕ)
      → IsValid c
      → Dict.get key c.key_to_freq ≡ some f
      → IsValid (bumped c key f)
  bumped-IsValid c key f v h = record {
    agrees = bumped-Agrees c key f v.agrees h;
    bounded = unfold bumped in v.bounded;
  }

  -- What `get` leaves of the entries: an expired entry of the key goes, nothing else changes.
  abbrev pub AfterGet : ℕ → LfuCache V → String → LfuCache V → Type 0
  AfterGet now c key c' =
      (k : String) → live now (Dict.get k c'.key_to_value) ≡ live now (Dict.get k c.key_to_value)

  -- On a valid cache `get` never raises. It returns the stored schema exactly while the deadline
  -- has not passed, keeps the cache valid, and changes nothing that a later read at that time can
  -- see.
  pub get-live :
      (now : ℕ) (c : LfuCache V) (key : String)
      → IsValid c
      → (c' : LfuCache V) × (get now c key ≡ some (c', live now (Dict.get key c.key_to_value)))
        × IsValid c'
        × AfterGet now c key c'
  unfolding get
  get-live now c key v = elim (Option-cases (Dict.get key c.key_to_value)) [
    | inl absent ↦ (c, ground (arith, absent), v, λ k. refl)
    | inr ((schema, expire_at), found) ↦ elim (Bool-cases (is_expired now expire_at)) [
      | inl old ↦ (
        evict_key c key,
        ground (arith, found, old),
        evict_key-IsValid c key v,
        λ k.
            unfold evict_key in
            ground (arith, found, old, get-remove key k c.key_to_value, string_eq.beq_iff key k),
      )
      | inr fresh ↦
          let (f, counts) = value_has_freq c key v.agrees (ground (arith, found)) in
          (
            bumped c key f,
            ground (arith, found, fresh, increment_freq-bumped c key f v.agrees counts),
            bumped-IsValid c key f v counts,
            λ k. unfold bumped in refl,
          )
    ]
  ]
