-- ===== src/LfuCache/Eviction.antt =====
-- `_evict_lfu`: which key it evicts, and that it makes room.
use congine.Dict
use congine.Dict.{get-remove, first_key, has-get, has-not_empty}
use congine.LfuCache.{LfuCache, evict_lfu, evict_key, evict_from}
use congine.LfuCache.Frequencies.{Bucket, Buckets, in_bucket, discard, min_key, pop_first}
use congine.LfuCache.Valid.{Agrees, evict_key-Agrees}
use congine.Prelude.{
  ℕ, ◌≤◌, String, ◌≡◌, refl, true, false, some, none, arith, nat_eq, string_eq, Option-cases, ◌⊎◌,
  beq_refl, ◌∙◌, sym, subst, [], ◌∷◌, inl, inr, if◌then◌else◌, is_empty, ltb,
}

-- `min(d)` is a key of the dict, and no key is less.
min_key-le : (f : ℕ) (d : Buckets) → min_key f d ≤ f
unfolding min_key
min_key-le f [] = omega arith
min_key-le f ((g, b) ∷ d) = ground (arith, min_key-le (if ltb g f then g else f) d)

min_key-least : (f g : ℕ) (d : Buckets) → Dict.has g d ≡ true → min_key f d ≤ g
unfolding min_key Dict.get
min_key-least f g [] h = cc
min_key-least f g ((i, a) ∷ d) h = ground (
  arith,
  min_key-le (if ltb i f then i else f) d,
  min_key-least (if ltb i f then i else f) g d,
  nat_eq.beq_iff i g,
)

min_key-present : (f : ℕ) (d : Buckets) → (min_key f d ≡ f) ⊎ (Dict.has (min_key f d) d ≡ true)
unfolding min_key Dict.get
min_key-present f [] = inl refl
min_key-present f ((g, b) ∷ d) = ground (
  arith,
  min_key-present (if ltb g f then g else f) d,
  nat_eq.beq_iff g (min_key (if ltb g f then g else f) d),
)

min_key-has : (f : ℕ) (b : Bucket) (d : Buckets) → Dict.has (min_key f d) ((f, b) ∷ d) ≡ true
unfolding Dict.get
min_key-has f b d = ground (arith, min_key-present f d, nat_eq.beq_iff f (min_key f d))

min_key-least_head :
    (f g : ℕ) (b : Bucket) (d : Buckets) → Dict.has g ((f, b) ∷ d) ≡ true → min_key f d ≤ g
unfolding Dict.get
min_key-least_head f g b d h =
    ground (arith, min_key-le f d, min_key-least f g d, nat_eq.beq_iff f g)

-- The key that `_evict_lfu` takes, and the state that it leaves.
pub record Victim {V : Type 0} (c : LfuCache V) (key : String) (freq : ℕ) : Type 0 where
  pub evicts : evict_lfu c ≡ some (record (evict_key c key) { min_freq = freq })
  pub counts : Dict.get key c.key_to_freq ≡ some freq
  pub least : (k : String) (f : ℕ) → Dict.get k c.key_to_freq ≡ some f → freq ≤ f
  pub rest : Bucket
  pub oldest : Dict.get freq c.freq_to_keys ≡ some ((key, tt) ∷ rest)

module _ {V : Type 0} where
  evict_from-evict_key :
      (c : LfuCache V) (freq : ℕ) (key : String) (rest : Bucket)
      → Dict.get freq c.freq_to_keys ≡ some ((key, tt) ∷ rest)
      → Dict.get key c.key_to_freq ≡ some freq
      → evict_from c freq ((key, tt) ∷ rest) ≡ some (record (evict_key c key) { min_freq = freq })
  unfolding evict_from evict_key pop_first discard
  evict_from-evict_key c freq key rest h e = ground (arith, e, h)

  listed_first :
      (c : LfuCache V) (freq : ℕ) (key : String) (rest : Bucket)
      → Agrees c
      → Dict.get freq c.freq_to_keys ≡ some ((key, tt) ∷ rest)
      → Dict.get key c.key_to_freq ≡ some freq
  unfolding in_bucket Dict.get
  listed_first c freq key rest v h = v.counted key freq (rw h (rw (beq_refl key)))

  Victim-of :
      (c : LfuCache V) (freq : ℕ) (key : String) (rest : Bucket)
      → Agrees c
      → Dict.get freq c.freq_to_keys ≡ some ((key, tt) ∷ rest)
      → ((k : String) (f : ℕ) → Dict.get k c.key_to_freq ≡ some f → freq ≤ f)
      → evict_lfu c ≡ evict_from c freq ((key, tt) ∷ rest)
      → Victim c key freq
  Victim-of c freq key rest v h least e =
      let counts = listed_first c freq key rest v h in
      record {
        evicts = e ∙ evict_from-evict_key c freq key rest h counts;
        counts = counts;
        least = least;
        rest = rest;
        oldest = h;
      }

  bucket_of :
      (c : LfuCache V) (k : String) (f : ℕ)
      → Agrees c
      → Dict.get k c.key_to_freq ≡ some f
      → Dict.has f c.freq_to_keys ≡ true
  unfolding in_bucket
  bucket_of c k f v h = ground (arith, v.listed k f h)

  -- the branch in which `min_freq` names a bucket
  Victim-at_min :
      (c : LfuCache V) (b : Bucket)
      → Agrees c
      → Dict.get c.min_freq c.freq_to_keys ≡ some b
      → (key : String) × (freq : ℕ) × Victim c key freq
  unfolding evict_lfu
  Victim-at_min c [] v h = absurd (ground (arith, v.filled c.min_freq [] h))
  Victim-at_min c ((key, tt) ∷ rest) v h = (
    key,
    c.min_freq,
    Victim-of c c.min_freq key rest v h (λ k f e. v.least k f (v.listed k f e)) (rw h),
  )

  -- the branch in which `min_freq` is stale: the rescan finds the least bucket
  evict_lfu-rescan :
      (c : LfuCache V) (f : ℕ) (b rest : Bucket) (d : Buckets)
      → c.freq_to_keys ≡ (f, b) ∷ d
      → Dict.get c.min_freq c.freq_to_keys ≡ none
      → Dict.get (min_key f d) c.freq_to_keys ≡ some rest
      → evict_lfu c ≡ evict_from c (min_key f d) rest
  unfolding evict_lfu
  evict_lfu-rescan c f b rest d e h found = ground (arith, e, h, found)

  Victim-in_least :
      (c : LfuCache V) (f : ℕ) (b least : Bucket) (d : Buckets)
      → Agrees c
      → c.freq_to_keys ≡ (f, b) ∷ d
      → Dict.get c.min_freq c.freq_to_keys ≡ none
      → Dict.get (min_key f d) c.freq_to_keys ≡ some least
      → (key : String) × (freq : ℕ) × Victim c key freq
  Victim-in_least c f b [] d v e h found = absurd (ground (arith, v.filled (min_key f d) [] found))
  Victim-in_least c f b ((key, tt) ∷ rest) d v e h found = (
    key,
    min_key f d,
    Victim-of c (min_key f d) key rest v found
        (λ k g q.
          min_key-least_head f g b d (subst (λ x. Dict.has g x ≡ true) e (bucket_of c k g v q)))
        (evict_lfu-rescan c f b ((key, tt) ∷ rest) d e h found),
  )

  Victim-after_rescan :
      (c : LfuCache V) (d : Buckets)
      → Agrees c
      → c.freq_to_keys ≡ d
      → Dict.get c.min_freq c.freq_to_keys ≡ none
      → is_empty d ≡ false
      → (key : String) × (freq : ℕ) × Victim c key freq
  Victim-after_rescan c [] v e h full = absurd (ground arith)
  Victim-after_rescan c ((f, b) ∷ d) v e h full =
      let (least, found) = has-get (min_key f d) ((f, b) ∷ d) (min_key-has f b d) in
      Victim-in_least c f b least d v e h
        (subst (λ x. Dict.get (min_key f d) x ≡ some least) (sym e) found)

  stored_has_bucket :
      (c : LfuCache V)
      → Agrees c
      → is_empty c.key_to_value ≡ false
      → is_empty c.freq_to_keys ≡ false
  stored_has_bucket c v h =
      let (k, stored) = first_key c.key_to_value h in
      let (f, counts) = has-get k c.key_to_freq (sym (v.same_keys k) ∙ stored) in
      has-not_empty f c.freq_to_keys (bucket_of c k f v counts)

  -- On a state whose dicts agree, `_evict_lfu` raises nothing, and if any entry is stored it evicts
  -- exactly one key: none has been used less often, and among those used as often it is the one
  -- whose frequency was reached first. A stale `min_freq` changes neither.
  pub evict_lfu-least :
      (c : LfuCache V)
      → Agrees c
      → is_empty c.key_to_value ≡ false
      → (key : String) × (freq : ℕ) × Victim c key freq
  evict_lfu-least c v h = elim (Option-cases (Dict.get c.min_freq c.freq_to_keys)) [
    | inl stale ↦ Victim-after_rescan c c.freq_to_keys v refl stale (stored_has_bucket c v h)
    | inr (b, found) ↦ Victim-at_min c b v found
  ]

  -- The state after the eviction of the victim, whose frequency becomes the least one.
  abbrev pub without_victim : LfuCache V → String → ℕ → LfuCache V
  without_victim c key freq = record (evict_key c key) { min_freq = freq }

  pub Victim-Agrees :
      (c : LfuCache V) (key : String) (freq : ℕ)
      → Agrees c
      → Victim c key freq
      → Agrees (without_victim c key freq)
  Victim-Agrees c key freq v w =
      let a = evict_key-Agrees c key v in
      record {
        listed = a.listed;
        counted = a.counted;
        same_keys = a.same_keys;
        filled = a.filled;
        used = a.used;
        least = λ k f h. w.least k f (kept k f (a.counted k f h));
      }
    where
      kept :
          (k : String) (f : ℕ)
          → Dict.get k (evict_key c key).key_to_freq ≡ some f
          → Dict.get k c.key_to_freq ≡ some f
      kept k f h = unfold evict_key in ground (arith, get-remove key k c.key_to_freq, h)
