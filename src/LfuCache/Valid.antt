-- ===== src/LfuCache/Valid.antt =====
-- The invariant of the LFU cache: its three dicts agree.
use congine.Dict
use congine.Dict.{get-put, get-remove, size-put, size-remove-lt, size-remove-le}
use congine.LfuCache.{LfuCache, init, evict_key}
use congine.LfuCache.Frequencies.{NoneEmpty, in_bucket, in_bucket-discard, discard-NoneEmpty}
use congine.Prelude.{
  ℕ, ◌≤◌, String, ◌≡◌, refl, true, false, some, none, arith, nat_eq, string_eq, Option-cases, inl,
  inr, if◌then◌else◌, ◌==◌,
}

-- Everything but the bound on the size.
pub record Agrees {V : Type 0} (c : LfuCache V) : Type 0 where
  pub listed :
      (k : String) (f : ℕ) → Dict.get k c.key_to_freq ≡ some f → in_bucket c.freq_to_keys k f ≡ true
  pub counted :
      (k : String) (f : ℕ) → in_bucket c.freq_to_keys k f ≡ true → Dict.get k c.key_to_freq ≡ some f
  pub same_keys : (k : String) → Dict.has k c.key_to_value ≡ Dict.has k c.key_to_freq
  pub filled : NoneEmpty c.freq_to_keys
  pub used : (k : String) (f : ℕ) → in_bucket c.freq_to_keys k f ≡ true → 1 ≤ f
  pub least : (k : String) (f : ℕ) → in_bucket c.freq_to_keys k f ≡ true → c.min_freq ≤ f

pub record IsValid {V : Type 0} (c : LfuCache V) : Type 0 where
  pub agrees : Agrees c
  pub bounded : Dict.size c.key_to_value ≤ c.capacity

module _ {V : Type 0} where
  pub init-IsValid : (capacity ttl : ℕ) → IsValid (init {V = V} capacity ttl)
  unfolding init in_bucket Dict.get
  init-IsValid capacity ttl = record {
    agrees = record {
      listed = λ k f h. cc;
      counted = λ k f h. cc;
      same_keys = λ k. refl;
      filled = λ f b h. cc;
      used = λ k f h. cc;
      least = λ k f h. cc;
    };
    bounded = omega arith;
  }

  evict_key-in_bucket :
      (c : LfuCache V) (key k : String) (f : ℕ)
      → Agrees c
      → in_bucket (evict_key c key).freq_to_keys k f
        ≡ (if key == k then false else in_bucket c.freq_to_keys k f)
  unfolding evict_key
  evict_key-in_bucket c key k f v = elim (Option-cases (Dict.get key c.key_to_freq)) [
    | inl absent ↦ ground (arith, absent, v.counted k f, string_eq.beq_iff key k)
    | inr (g, found) ↦ ground (
      arith,
      found,
      in_bucket-discard g f key k c.freq_to_keys,
      v.counted k f,
      string_eq.beq_iff key k,
      nat_eq.beq_iff g f,
    )
  ]

  evict_key-NoneEmpty :
      (c : LfuCache V) (key : String) → Agrees c → NoneEmpty (evict_key c key).freq_to_keys
  unfolding evict_key
  evict_key-NoneEmpty c key v f b h = elim (Option-cases (Dict.get key c.key_to_freq)) [
    | inl absent ↦ v.filled f b (rw (absent, evict_key) at h)
    | inr (g, found) ↦
        discard-NoneEmpty g key c.freq_to_keys v.filled f b (rw (found, evict_key) at h)
  ]

  -- Removal of a key, wherever it stands, keeps the three dicts in step.
  pub evict_key-Agrees : (c : LfuCache V) (key : String) → Agrees c → Agrees (evict_key c key)
  evict_key-Agrees c key v = record {
    listed = λ k f h. ground (arith, at k f, of_key k, v.listed k f);
    counted = λ k f h. ground (arith, at k f, of_key k, v.counted k f);
    same_keys = λ k. ground (arith, v.same_keys k, of_key k, of_value k);
    filled = evict_key-NoneEmpty c key v;
    used = λ k f h. ground (arith, at k f, v.used k f);
    least = λ k f h. ground (arith, at k f, v.least k f, of_min);
  }
    where
      at :
          (k : String) (f : ℕ)
          → in_bucket (evict_key c key).freq_to_keys k f
            ≡ (if key == k then false else in_bucket c.freq_to_keys k f)
      at k f = evict_key-in_bucket c key k f v

      of_key :
          (k : String)
          → Dict.get k (evict_key c key).key_to_freq
            ≡ (if key == k then none else Dict.get k c.key_to_freq)
      of_key k = unfold evict_key in get-remove key k c.key_to_freq

      of_value :
          (k : String)
          → Dict.get k (evict_key c key).key_to_value
            ≡ (if key == k then none else Dict.get k c.key_to_value)
      of_value k = unfold evict_key in get-remove key k c.key_to_value

      of_min : (evict_key c key).min_freq ≡ c.min_freq
      of_min = unfold evict_key in refl
