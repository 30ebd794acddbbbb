-- ===== src/LfuCache/Writes.antt =====
-- What `put` and a sweep of the LFU cache do, on every valid state.
use congine.Dict
use congine.Dict.{get-put, get-remove, size-put, size-remove-lt, size-not_empty}
use congine.LfuCache.{
  LfuCache, evict_key, insert_new, put, put_with, ttl_of, expired_keys, evict_keys, sweep_expired,
}
use congine.LfuCache.Expiry.{expired_keys_complete, expired_keys_sound}
use congine.LfuCache.Eviction.{Victim, evict_lfu-least, without_victim, Victim-Agrees}
use congine.LfuCache.Reads.{value_has_freq, bumped-IsValid, evict_key-IsValid}
use congine.LfuCache.Steps.{bumped, increment_freq-bumped, insert_new-Agrees}
use congine.LfuCache.Valid.{Agrees, IsValid}
use congine.Prelude.{
  ℕ, ◌+◌, ◌≤◌, ◌<◌, String, ◌≡◌, ◌≢◌, refl, true, false, some, none, arith, nat_eq, string_eq,
  Option, Bool-cases, List, [], ◌∷◌, inl, inr, ◌⊎◌, if◌then◌else◌, leb, nat_beq, leb→le, contains,
}

module _ {V : Type 0} where
  -- The entries after a `put` of the key: the key has the new entry, and any other key keeps its
  -- own, unless it is the one victim of a full cache.
  pub record Stored (c : LfuCache V) (key : String) (entry : V × ℕ) (c' : LfuCache V) : Type 0 where
    pub valid : IsValid c'
    pub stored : Dict.get key c'.key_to_value ≡ some entry
    pub others :
        ((k : String) → k ≢ key → Dict.get k c'.key_to_value ≡ Dict.get k c.key_to_value)
        ⊎ ((gone : String) × (freq : ℕ) × Victim c gone freq
            × (c.capacity ≤ Dict.size c.key_to_value)
            × ((k : String)
                → k ≢ key
                → k ≢ gone
                → Dict.get k c'.key_to_value ≡ Dict.get k c.key_to_value))

  -- the state in which the entry of a stored key is replaced
  abbrev updated : LfuCache V → String → V × ℕ → LfuCache V
  updated c key entry = record c { key_to_value = Dict.put key entry c.key_to_value }

  updated-IsValid :
      (c : LfuCache V) (key : String) (entry : V × ℕ)
      → IsValid c
      → Dict.has key c.key_to_value ≡ true
      → IsValid (updated c key entry)
  updated-IsValid c key entry v h = record {
    agrees = record {
      listed = v.agrees.listed;
      counted = v.agrees.counted;
      same_keys = λ k. ground (
        arith,
        v.agrees.same_keys k,
        get-put key k entry c.key_to_value,
        h,
        string_eq.beq_iff key k,
      );
      filled = v.agrees.filled;
      used = v.agrees.used;
      least = v.agrees.least;
    };
    bounded = ground (arith, v.bounded, size-put key entry c.key_to_value, h);
  }

  get-put_self :
      (key : String) (entry : V × ℕ) (d : Dict.Dict String (V × ℕ))
      → Dict.get key (Dict.put key entry d) ≡ some entry
  get-put_self key entry d = ground (arith, get-put key key entry d, string_eq.beq_iff key key)

  get-put_ne :
      (key k : String) (entry : V × ℕ) (d : Dict.Dict String (V × ℕ))
      → k ≢ key
      → Dict.get k (Dict.put key entry d) ≡ Dict.get k d
  get-put_ne key k entry d h = ground (arith, get-put key k entry d, string_eq.beq_iff key k)

  store_known :
      (c : LfuCache V) (key : String) (schema : V) (expire_at : ℕ)
      → IsValid c
      → Dict.has key c.key_to_value ≡ true
      → (c' : LfuCache V) × (put_with c key schema expire_at ≡ some c')
        × Stored c key (schema, expire_at) c'
  unfolding put_with
  store_known c key schema expire_at v h =
      let entry : V × ℕ = (schema, expire_at) in
      let d = updated c key entry in
      let w : IsValid d = updated-IsValid c key entry v h in
      let (f, counts) = value_has_freq c key v.agrees h in
      (
        bumped d key f,
        rw h (increment_freq-bumped d key f w.agrees counts),
        record {
          valid = bumped-IsValid d key f w counts;
          stored = unfold bumped in get-put_self key entry c.key_to_value;
          others = inl (λ k ne. unfold bumped in get-put_ne key k entry c.key_to_value ne);
        },
      )

  inserted-IsValid :
      (c : LfuCache V) (key : String) (schema : V) (expire_at : ℕ)
      → Agrees c
      → Dict.size c.key_to_value < c.capacity
      → Dict.has key c.key_to_value ≡ false
      → IsValid (insert_new c key schema expire_at)
  inserted-IsValid c key schema expire_at v room h = record {
    agrees = insert_new-Agrees c key schema expire_at v h;
    bounded =
        unfold insert_new in
        ground (arith, size-put key (schema, expire_at) c.key_to_value, h, room);
  }

  store_new :
      (c : LfuCache V) (key : String) (schema : V) (expire_at : ℕ)
      → IsValid c
      → Dict.has key c.key_to_value ≡ false
      → Dict.size c.key_to_value < c.capacity
      → (c' : LfuCache V) × (put_with c key schema expire_at ≡ some c')
        × Stored c key (schema, expire_at) c'
  unfolding put_with
  store_new c key schema expire_at v h room = (
    insert_new c key schema expire_at,
    ground (arith, h, room),
    record {
      valid = inserted-IsValid c key schema expire_at v.agrees room h;
      stored = unfold insert_new in get-put_self key (schema, expire_at) c.key_to_value;
      others =
          inl (λ k ne. unfold insert_new in get-put_ne key k (schema, expire_at) c.key_to_value ne);
    },
  )

  evicted-room :
      (c : LfuCache V) (gone : String) (freq : ℕ)
      → IsValid c
      → Victim c gone freq
      → Dict.size (evict_key c gone).key_to_value < c.capacity
  unfolding evict_key
  evicted-room c gone freq v w =
      let stored : Dict.has gone c.key_to_value ≡ true =
        ground (arith, v.agrees.same_keys gone, w.counts) in
      omega (arith, size-remove-lt gone c.key_to_value stored, v.bounded)

  evicted-absent :
      (c : LfuCache V) (gone key : String)
      → Dict.has key c.key_to_value ≡ false
      → Dict.has key (evict_key c gone).key_to_value ≡ false
  unfolding evict_key
  evicted-absent c gone key h = ground (arith, get-remove gone key c.key_to_value, h)

  after_eviction :
      (c : LfuCache V) (gone key k : String) (schema : V) (expire_at freq : ℕ)
      → k ≢ key
      → k ≢ gone
      → Dict.get k (insert_new (without_victim c gone freq) key schema expire_at).key_to_value
        ≡ Dict.get k c.key_to_value
  unfolding insert_new evict_key
  after_eviction c gone key k schema expire_at freq ne other = ground (
    arith,
    get-put key k (schema, expire_at) (Dict.remove gone c.key_to_value),
    get-remove gone k c.key_to_value,
    string_eq.beq_iff key k,
    string_eq.beq_iff gone k,
  )

  store_full :
      (c : LfuCache V) (key : String) (schema : V) (expire_at : ℕ)
      → IsValid c
      → Dict.has key c.key_to_value ≡ false
      → 0 < c.capacity
      → c.capacity ≤ Dict.size c.key_to_value
      → (c' : LfuCache V) × (put_with c key schema expire_at ≡ some c')
        × Stored c key (schema, expire_at) c'
  unfolding put_with evict_key
  store_full c key schema expire_at v h positive full =
      let (gone, freq, w) =
        evict_lfu-least c v.agrees (size-not_empty c.key_to_value (omega arith)) in
      let d = without_victim c gone freq in
      (
        insert_new d key schema expire_at,
        ground (arith, h, full, w.evicts),
        record {
          valid =
              inserted-IsValid d key schema expire_at (Victim-Agrees c gone freq v.agrees w)
                (evicted-room c gone freq v w) (evicted-absent c gone key h);
          stored = unfold insert_new in get-put_self key (schema, expire_at) d.key_to_value;
          others = inr (
            gone,
            freq,
            w,
            full,
            λ k ne other. after_eviction c gone key k schema expire_at freq ne other,
          );
        },
      )

  -- On a valid cache of positive capacity `put` never raises and stores the entry with the deadline
  -- that its TTL gives. The cache stays valid, so it never holds more entries than its capacity.
  -- Every other key keeps its entry, but for one victim where the cache was full: a key that was
  -- used least often and, among those, reached that frequency first.
  pub put-Stored :
      (now : ℕ) (c : LfuCache V) (key : String) (schema : V) (ttl : Option ℕ)
      → IsValid c
      → 0 < c.capacity
      → (c' : LfuCache V) × (put now c key schema ttl ≡ some c')
        × Stored c key (schema, now + ttl_of c.ttl_seconds ttl) c'
  unfolding put
  put-Stored now c key schema ttl v positive =
      rw (positive_test c.capacity positive) (elim (Bool-cases (Dict.has key c.key_to_value)) [
        | inl known ↦ store_known c key schema (now + ttl_of c.ttl_seconds ttl) v known
        | inr new ↦ elim (Bool-cases (leb c.capacity (Dict.size c.key_to_value))) [
          | inl full ↦
              store_full c key schema (now + ttl_of c.ttl_seconds ttl) v new positive
                (leb→le _ _ full)
          | inr room ↦ store_new c key schema (now + ttl_of c.ttl_seconds ttl) v new (ground arith)
        ]
      ])
    where
      positive_test : (n : ℕ) → 0 < n → nat_beq n 0 ≡ false
      positive_test n h = ground arith

  evict_keys-IsValid : (ks : List String) (c : LfuCache V) → IsValid c → IsValid (evict_keys ks c)
  unfolding evict_keys
  evict_keys-IsValid [] c v = v
  evict_keys-IsValid (k ∷ ks) c v = evict_keys-IsValid ks (evict_key c k) (evict_key-IsValid c k v)

  get-evict_keys :
      (ks : List String) (c : LfuCache V) (k : String)
      → Dict.get k (evict_keys ks c).key_to_value
        ≡ (if contains k ks then none else Dict.get k c.key_to_value)
  unfolding evict_keys evict_key contains
  get-evict_keys [] c k = refl
  get-evict_keys (j ∷ ks) c k =
      ground (arith, get-evict_keys ks (evict_key c j) k, get-remove j k c.key_to_value)

  -- A sweep whose readings of the clock lie between `t` and `u` keeps the cache valid; every entry that
  -- it leaves is an entry that was there, unchanged, and had not expired at `t`; and in a cache that
  -- holds each key once, an entry that has not expired at `u` stays.
  pub sweep-leaves_live :
      (clock : ℕ → ℕ) (t u : ℕ) (c : LfuCache V) (k : String) (schema : V) (expire_at : ℕ)
      → ((n : ℕ) → t ≤ clock n)
      → ((n : ℕ) → clock n ≤ u)
      → Dict.Distinct c.key_to_value
      → IsValid c
      → IsValid (sweep_expired clock c).0
        × ((Dict.get k (sweep_expired clock c).0.key_to_value ≡ some (schema, expire_at)
              → (Dict.get k c.key_to_value ≡ some (schema, expire_at)) × (t < expire_at))
            × (Dict.get k c.key_to_value ≡ some (schema, expire_at)
                → u < expire_at
                → Dict.get k (sweep_expired clock c).0.key_to_value ≡ some (schema, expire_at)))
  unfolding sweep_expired
  sweep-leaves_live clock t u c k schema expire_at later before distinct v = (
    evict_keys-IsValid (expired_keys clock 0 c.key_to_value) c v,
    (
      λ h. ground (
        arith,
        h,
        get-evict_keys (expired_keys clock 0 c.key_to_value) c k,
        expired_keys_complete clock t 0 k c.key_to_value schema expire_at later,
      ),
      λ h live.
          rw
            (
              get-evict_keys (expired_keys clock 0 c.key_to_value) c k,
              expired_keys_sound clock u 0 k c.key_to_value schema expire_at distinct before h live,
            )
            h,
    ),
  )
