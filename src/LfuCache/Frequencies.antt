-- ===== src/LfuCache/Frequencies.antt =====
-- The frequency buckets of lfu_cache.py: a dict from a frequency to the keys used so often,
-- oldest first (`OrderedDict` as an ordered set).
use congine.Dict
use congine.Dict.{Dict, get-put, get-remove}
use congine.Prelude.{
  ℕ, String, ◌≡◌, refl, Bool, true, false, ◌&&◌, Option, none, some, [], ◌∷◌, ltb, ◌==◌, arith,
  is_empty, if◌then◌else◌, nat_eq, string_eq, beq_refl, Option-cases, inl, inr,
}

abbrev pub Bucket : Type 0
Bucket = Dict String (Unit {0})

abbrev pub Buckets : Type 0
Buckets = Dict ℕ Bucket

-- the bucket of a frequency, empty where there is none
abbrev pub bucket_or_new : Option Bucket → Bucket
bucket_or_new none = []
bucket_or_new (some b) = b

-- `d.setdefault(freq, OrderedDict())[key] = None`
unfoldable pub setdefault_add : ℕ → String → Buckets → Buckets
setdefault_add freq key d = Dict.put freq (Dict.put key tt (bucket_or_new (Dict.get freq d))) d

-- `bucket.popitem(last=False)`: the oldest key, and the bucket without it.
unfoldable pub pop_first : Bucket → Option (String × Bucket)
pop_first [] = none
pop_first ((k, v) ∷ b) = some (k, Dict.remove k ((k, v) ∷ b))

-- `min(d)`
unfoldable pub min_key : ℕ → Buckets → ℕ
min_key f [] = f
min_key f ((g, b) ∷ d) = min_key (if ltb g f then g else f) d

-- `bucket.pop(key, None)`, and the bucket's removal if it is empty then
unfoldable pub discard : ℕ → String → Buckets → Buckets
discard freq key d = elim (Dict.get freq d) [
  | none ↦ d
  | some b ↦
      let rest = Dict.remove key b in
      if is_empty rest then Dict.remove freq d else Dict.put freq rest d
]

abbrev in_some : String → Option Bucket → Bool
in_some k none = false
in_some k (some b) = Dict.has k b

-- Whether the key stands in the bucket of the frequency.
unfoldable pub in_bucket : Buckets → String → ℕ → Bool
in_bucket d k f = in_some k (Dict.get f d)

has-is_empty : (k : String) (b : Bucket) → is_empty b ≡ true → Dict.has k b ≡ false
unfolding Dict.get
has-is_empty k [] h = refl
has-is_empty k (x ∷ b) h = ground arith

pub in_bucket-setdefault_add :
    (f g : ℕ) (k j : String) (d : Buckets)
    → in_bucket (setdefault_add f k d) j g
      ≡ (if (f == g) && (k == j) then true else in_bucket d j g)
unfolding in_bucket setdefault_add
in_bucket-setdefault_add f g k j d = ground (
  arith,
  get-put f g (Dict.put k tt (bucket_or_new (Dict.get f d))) d,
  get-put k j tt (bucket_or_new (Dict.get f d)),
  has-is_empty j [],
)

pub in_bucket-discard :
    (f g : ℕ) (k j : String) (d : Buckets)
    → in_bucket (discard f k d) j g ≡ (if (f == g) && (k == j) then false else in_bucket d j g)
unfolding in_bucket discard
in_bucket-discard f g k j d = elim (Option-cases (Dict.get f d)) [
  | inl absent ↦ ground (arith, absent, nat_eq.beq_iff f g)
  | inr (b, found) ↦ ground (
    arith,
    found,
    get-put f g (Dict.remove k b) d,
    get-remove f g d,
    get-remove k j b,
    has-is_empty j (Dict.remove k b),
    nat_eq.beq_iff f g,
  )
]

-- No bucket is empty.
abbrev pub NoneEmpty : Buckets → Type 0
NoneEmpty d = (f : ℕ) (b : Bucket) → Dict.get f d ≡ some b → is_empty b ≡ false

is_empty-put : (k : String) (b : Bucket) → is_empty (Dict.put k tt b) ≡ false
unfolding Dict.put
is_empty-put k [] = refl
is_empty-put k (x ∷ b) = ground arith

pub setdefault_add-NoneEmpty :
    (f : ℕ) (k : String) (d : Buckets) → NoneEmpty d → NoneEmpty (setdefault_add f k d)
unfolding setdefault_add
setdefault_add-NoneEmpty f k d h g b e = ground (
  arith,
  h g b,
  get-put f g (Dict.put k tt (bucket_or_new (Dict.get f d))) d,
  is_empty-put k (bucket_or_new (Dict.get f d)),
)

pub discard-NoneEmpty : (f : ℕ) (k : String) (d : Buckets) → NoneEmpty d → NoneEmpty (discard f k d)
unfolding discard
discard-NoneEmpty f k d h g b e = elim (Option-cases (Dict.get f d)) [
  | inl absent ↦ ground (arith, h g b)
  | inr (a, found) ↦ ground (arith, found, h g b, get-put f g (Dict.remove k a) d, get-remove f g d)
]

-- A bucket that is not empty has a first key, and that key is in it.
pub pop_first-in_bucket :
    (d : Buckets) (f : ℕ) (b : Bucket)
    → Dict.get f d ≡ some b
    → is_empty b ≡ false
    → (k : String) × (pop_first b ≡ some (k, Dict.remove k b)) × (in_bucket d k f ≡ true)
unfolding in_bucket pop_first Dict.get
pop_first-in_bucket d f [] h e = absurd (ground arith)
pop_first-in_bucket d f ((k, v) ∷ b) h e = (k, refl, rw h (rw (beq_refl k)))
