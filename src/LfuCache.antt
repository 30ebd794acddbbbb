-- ===== src/LfuCache.antt =====
-- libs/congine-sdk/src/congine_core/infrastructure/lfu_cache.py: the LFU schema cache with TTL.
-- A method takes its reading `now` of the monotonic clock, in whole seconds, and returns the new
-- state beside its result; `none` stands for a `KeyError`. Each method runs under the lock, so it
-- is one step. A schema is any type `V`. The sweeper's thread is a caller of `sweep_expired`.
mod Frequencies
pub mod Valid
pub mod Steps
pub mod Eviction
pub mod Reads
pub mod Writes
pub mod Contents
pub mod Expiry
pub mod Sweeper
mod Examples
pub use Frequencies.{Bucket, Buckets, pop_first, min_key}
unfoldable pub use Frequencies.{setdefault_add}
use Frequencies.{discard}
use congine.Dict
use congine.Dict.{Dict}
use congine.Prelude.{
  ℕ, zero, suc, ◌+◌, String, Bool, true, false, Option, none, some, List, [], ◌∷◌, leb, nat_beq,
  ◌==◌, length, is_empty, if◌then◌else◌, ◌>>=◌, nat_eq, string_eq,
}

pub record LfuCache (V : Type 0) : Type 0 where
  pub capacity : ℕ
  pub ttl_seconds : ℕ
  -- the schema and the deadline of each key
  pub key_to_value : Dict String (V × ℕ)
  pub key_to_freq : Dict String ℕ
  pub freq_to_keys : Buckets
  pub min_freq : ℕ

-- `_is_expired`
abbrev pub is_expired : ℕ → ℕ → Bool
is_expired now expire_at = leb expire_at now

-- `self.ttl_seconds if ttl_seconds is None else ttl_seconds`
abbrev pub ttl_of : ℕ → Option ℕ → ℕ
ttl_of default none = default
ttl_of default (some ttl) = ttl

module _ {V : Type 0} where
  -- `__init__`: a negative capacity, which it refuses, is no natural number.
  unfoldable pub init : ℕ → ℕ → LfuCache V
  init capacity ttl_seconds = record {
    capacity = capacity;
    ttl_seconds = ttl_seconds;
    key_to_value = [];
    key_to_freq = [];
    freq_to_keys = [];
    min_freq = 0;
  }

  -- `_increment_freq`
  unfoldable pub increment_freq : LfuCache V → String → Option (LfuCache V)
  increment_freq c key = do
    freq ← Dict.get key c.key_to_freq
    bucket ← Dict.get freq c.freq_to_keys
    _ ← Dict.get key bucket
    let rest = Dict.remove key bucket
    let last = is_empty rest
    let kept = if last then Dict.remove freq c.freq_to_keys else Dict.put freq rest c.freq_to_keys
    some (record c {
      min_freq =
          if last then if nat_beq c.min_freq freq then freq + 1 else c.min_freq else c.min_freq;
      key_to_freq = Dict.put key (freq + 1) c.key_to_freq;
      freq_to_keys = setdefault_add (freq + 1) key kept;
    })

  -- the rest of `_evict_lfu`, from `popitem` on, at the bucket of `least`
  evict_from : LfuCache V → ℕ → Bucket → Option (LfuCache V)
  evict_from c least bucket = do
    (key, rest) ← pop_first bucket
    some (record c {
      min_freq = least;
      freq_to_keys =
          if is_empty rest
          then Dict.remove least c.freq_to_keys
          else Dict.put least rest c.freq_to_keys;
      key_to_value = Dict.remove key c.key_to_value;
      key_to_freq = Dict.remove key c.key_to_freq;
    })

  -- the branch of `_evict_lfu` in which `min_freq` is stale
  evict_rescan : LfuCache V → Buckets → Option (LfuCache V)
  evict_rescan c [] = some c
  evict_rescan c (b ∷ bs) = do
    let least = min_key b.0 bs
    bucket ← Dict.get least c.freq_to_keys
    evict_from c least bucket

  evict_at : LfuCache V → Option Bucket → Option (LfuCache V)
  evict_at c none = evict_rescan c c.freq_to_keys
  evict_at c (some []) = evict_rescan c c.freq_to_keys
  evict_at c (some (k ∷ ks)) = evict_from c c.min_freq (k ∷ ks)

  -- `_evict_lfu`
  unfoldable pub evict_lfu : LfuCache V → Option (LfuCache V)
  unfolding evict_from evict_rescan evict_at
  evict_lfu c = evict_at c (Dict.get c.min_freq c.freq_to_keys)

  -- `_evict_key`
  unfoldable pub evict_key : LfuCache V → String → LfuCache V
  unfolding discard
  evict_key c key =
      let buckets : Buckets = elim (Dict.get key c.key_to_freq) [
        | none ↦ c.freq_to_keys
        | some freq ↦ discard freq key c.freq_to_keys
      ] in
      record c {
        key_to_freq = Dict.remove key c.key_to_freq;
        key_to_value = Dict.remove key c.key_to_value;
        freq_to_keys = buckets;
      }

  -- `get`
  unfoldable pub get : ℕ → LfuCache V → String → Option (LfuCache V × Option V)
  get now c key = elim (Dict.get key c.key_to_value) [
    | none ↦ some (c, none)
    | some (schema, expire_at) ↦
        if is_expired now expire_at
        then some (evict_key c key, none)
        else do c' ← increment_freq c key; some (c', some schema)
  ]

  -- the last four lines of `put`
  unfoldable pub insert_new : LfuCache V → String → V → ℕ → LfuCache V
  insert_new c key schema expire_at = record c {
    key_to_value = Dict.put key (schema, expire_at) c.key_to_value;
    key_to_freq = Dict.put key 1 c.key_to_freq;
    freq_to_keys = setdefault_add 1 key c.freq_to_keys;
    min_freq = 1;
  }

  -- the two cases of `put` at a positive capacity
  put_with : LfuCache V → String → V → ℕ → Option (LfuCache V)
  put_with c key schema expire_at =
      if Dict.has key c.key_to_value
      then increment_freq
          (record c { key_to_value = Dict.put key (schema, expire_at) c.key_to_value }) key
      else do
        c' ← if leb c.capacity (Dict.size c.key_to_value) then evict_lfu c else some c
        some (insert_new c' key schema expire_at)

  -- `put`: `none` for the TTL stands for the cache's default
  unfoldable pub put : ℕ → LfuCache V → String → V → Option ℕ → Option (LfuCache V)
  unfolding put_with
  put now c key schema ttl_seconds =
      if nat_beq c.capacity 0
      then some c
      else put_with c key schema (now + ttl_of c.ttl_seconds ttl_seconds)

  -- `clear`
  unfoldable pub clear : LfuCache V → LfuCache V
  clear c = record c { key_to_value = []; key_to_freq = []; freq_to_keys = []; min_freq = 0 }

  -- `size`
  unfoldable pub size : LfuCache V → ℕ
  size c = Dict.size c.key_to_value

  -- `exists`
  unfoldable pub exists_key : ℕ → LfuCache V → String → LfuCache V × Bool
  exists_key now c key = elim (Dict.get key c.key_to_value) [
    | none ↦ (c, false)
    | some (schema, expire_at) ↦
        if is_expired now expire_at then (evict_key c key, false) else (c, true)
  ]

  -- the keys that the sweep finds expired; it reads the clock once for each entry
  unfoldable pub expired_keys : (ℕ → ℕ) → ℕ → Dict String (V × ℕ) → List String
  expired_keys clock i [] = []
  expired_keys clock i ((key, (schema, expire_at)) ∷ d) =
      let rest = expired_keys clock (suc i) d in
      if is_expired (clock i) expire_at then key ∷ rest else rest

  unfoldable pub evict_keys : List String → LfuCache V → LfuCache V
  evict_keys [] c = c
  evict_keys (key ∷ ks) c = evict_keys ks (evict_key c key)

  -- `_sweep_expired_locked`, behind `sweep_expired` and the sweeper
  unfoldable pub sweep_expired : (ℕ → ℕ) → LfuCache V → LfuCache V × ℕ
  unfolding expired_keys evict_keys
  sweep_expired clock c =
      let expired = expired_keys clock 0 c.key_to_value in (evict_keys expired c, length expired)
