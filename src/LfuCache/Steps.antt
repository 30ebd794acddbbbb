-- ===== src/LfuCache/Steps.antt =====
-- The steps that `get` and `put` of the LFU cache are made of: what each does to the buckets,
-- and that it keeps the three dicts in step.
use congine.Dict
use congine.Dict.{get-put, get-remove}
use congine.LfuCache.{LfuCache, increment_freq, insert_new}
use congine.LfuCache.Frequencies.{
  Buckets, in_bucket, discard, setdefault_add, in_bucket-discard, in_bucket-setdefault_add,
  discard-NoneEmpty, setdefault_add-NoneEmpty,
}
use congine.LfuCache.Valid.{Agrees}
use congine.Prelude.{
  ℕ, ◌+◌, ◌≤◌, String, ◌≡◌, refl, Bool, true, false, ◌&&◌, some, none, arith, nat_eq, string_eq,
  Option, Option-cases, inl, inr, if◌then◌else◌, ◌==◌, nat_beq,
}

abbrev bumped_min : ℕ → ℕ → Buckets → ℕ
bumped_min low freq kept =
    if is_gone (Dict.get freq kept) then if nat_beq low freq then freq + 1 else low else low
  where
    is_gone : {A : Type 0} → Option A → Bool
    is_gone none = true
    is_gone (some a) = false

module _ {V : Type 0} where
  -- The state after `_increment_freq` of a key that has been used `freq` times.
  unfoldable pub bumped : LfuCache V → String → ℕ → LfuCache V
  bumped c key freq =
      let kept = discard freq key c.freq_to_keys in
      record c {
        min_freq = bumped_min c.min_freq freq kept;
        key_to_freq = Dict.put key (freq + 1) c.key_to_freq;
        freq_to_keys = setdefault_add (freq + 1) key kept;
      }

  -- On a state whose dicts agree, `_increment_freq` of a stored key raises nothing.
  pub increment_freq-bumped :
      (c : LfuCache V) (key : String) (freq : ℕ)
      → Agrees c
      → Dict.get key c.key_to_freq ≡ some freq
      → increment_freq c key ≡ some (bumped c key freq)
  unfolding increment_freq bumped discard in_bucket
  increment_freq-bumped c key freq v h = elim (Option-cases (Dict.get freq c.freq_to_keys)) [
    | inl absent ↦ absurd (ground (arith, v.listed key freq h, absent))
    | inr (b, found) ↦ ground (
      arith,
      found,
      v.listed key freq h,
      get-remove freq freq c.freq_to_keys,
      get-put freq freq (Dict.remove key b) c.freq_to_keys,
      nat_eq.beq_iff freq freq,
    )
  ]

  bumped-in_bucket :
      (c : LfuCache V) (key k : String) (freq f : ℕ)
      → Agrees c
      → Dict.get key c.key_to_freq ≡ some freq
      → in_bucket (bumped c key freq).freq_to_keys k f
        ≡ (if key == k then nat_beq (freq + 1) f else in_bucket c.freq_to_keys k f)
  unfolding bumped
  bumped-in_bucket c key k freq f v h = ground (
    arith,
    in_bucket-setdefault_add (freq + 1) f key k (discard freq key c.freq_to_keys),
    in_bucket-discard freq f key k c.freq_to_keys,
    v.counted k f,
    string_eq.beq_iff key k,
    nat_eq.beq_iff freq f,
  )

  bumped-least :
      (c : LfuCache V) (key k : String) (freq f : ℕ)
      → Agrees c
      → Dict.get key c.key_to_freq ≡ some freq
      → in_bucket (bumped c key freq).freq_to_keys k f ≡ true
      → (bumped c key freq).min_freq ≤ f
  bumped-least c key k freq f v h e =
      unfold bumped in_bucket in
      ground (
        arith,
        bumped-in_bucket c key k freq f v h,
        e,
        in_bucket-discard freq f key k c.freq_to_keys,
        in_bucket-discard freq freq key k c.freq_to_keys,
        v.least k f,
        v.least key freq (v.listed key freq h),
        string_eq.beq_iff key k,
        nat_eq.beq_iff freq f,
      )

  -- `_increment_freq` keeps the three dicts in step.
  pub bumped-Agrees :
      (c : LfuCache V) (key : String) (freq : ℕ)
      → Agrees c
      → Dict.get key c.key_to_freq ≡ some freq
      → Agrees (bumped c key freq)
  bumped-Agrees c key freq v h = record {
    listed = λ k f e. ground (arith, e, at k f, of_key k, v.listed k f);
    counted = λ k f e. ground (arith, e, at k f, of_key k, v.counted k f);
    same_keys = λ k. ground (arith, v.same_keys k, of_key k, of_value, h, string_eq.beq_iff key k);
    filled =
        unfold bumped in
        setdefault_add-NoneEmpty (freq + 1) key (discard freq key c.freq_to_keys)
          (discard-NoneEmpty freq key c.freq_to_keys v.filled);
    used = λ k f e. ground (arith, e, at k f, v.used k f);
    least = λ k f e. bumped-least c key k freq f v h e;
  }
    where
      at :
          (k : String) (f : ℕ)
          → in_bucket (bumped c key freq).freq_to_keys k f
            ≡ (if key == k then nat_beq (freq + 1) f else in_bucket c.freq_to_keys k f)
      at k f = bumped-in_bucket c key k freq f v h

      of_key :
          (k : String)
          → Dict.get k (bumped c key freq).key_to_freq
            ≡ (if key == k then some (freq + 1) else Dict.get k c.key_to_freq)
      of_key k = unfold bumped in get-put key k (freq + 1) c.key_to_freq

      of_value : (bumped c key freq).key_to_value ≡ c.key_to_value
      of_value = unfold bumped in refl

  -- The insertion of a key that is not stored keeps the three dicts in step.
  pub insert_new-Agrees :
      (c : LfuCache V) (key : String) (schema : V) (expire_at : ℕ)
      → Agrees c
      → Dict.has key c.key_to_value ≡ false
      → Agrees (insert_new c key schema expire_at)
  insert_new-Agrees c key schema expire_at v h = record {
    listed = λ k f e. ground (arith, e, at k f, of_key k, v.listed k f);
    counted =
        λ k f e. ground (arith, e, at k f, of_key k, v.counted k f, fresh, string_eq.beq_iff key k);
    same_keys = λ k. ground (arith, v.same_keys k, of_key k, of_value k);
    filled = unfold insert_new in setdefault_add-NoneEmpty 1 key c.freq_to_keys v.filled;
    used = λ k f e. ground (arith, e, at k f, v.used k f);
    least = λ k f e. ground (arith, e, at k f, v.used k f, of_min);
  }
    where
      fresh : Dict.get key c.key_to_freq ≡ none
      fresh = ground (arith, h, v.same_keys key)

      at :
          (k : String) (f : ℕ)
          → in_bucket (insert_new c key schema expire_at).freq_to_keys k f
            ≡ (if (1 == f) && (key == k) then true else in_bucket c.freq_to_keys k f)
      at k f = unfold insert_new in in_bucket-setdefault_add 1 f key k c.freq_to_keys

      of_key :
          (k : String)
          → Dict.get k (insert_new c key schema expire_at).key_to_freq
            ≡ (if key == k then some 1 else Dict.get k c.key_to_freq)
      of_key k = unfold insert_new in get-put key k 1 c.key_to_freq

      of_value :
          (k : String)
          → Dict.get k (insert_new c key schema expire_at).key_to_value
            ≡ (if key == k then some (schema, expire_at) else Dict.get k c.key_to_value)
      of_value k = unfold insert_new in get-put key k (schema, expire_at) c.key_to_value

      of_min : (insert_new c key schema expire_at).min_freq ≡ 1
      of_min = unfold insert_new in refl
