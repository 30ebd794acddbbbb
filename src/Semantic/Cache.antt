-- ===== src/Semantic/Cache.antt =====
-- `SchemaPreparationCache` of libs/congine-sdk/src/congine_core/infrastructure/schema_preparation_cache.py.
-- Its ordered dict maps every key to one marker, so it is the list of its keys, the oldest first.
-- Each method runs under the lock, so it is one step.
use congine.Json.{Result, ok, raise, value_error}
use congine.Prelude.{
  ℕ, ◌+◌, Bool, true, false, List, [], ◌∷◌, ◌++◌, length, ltb, nat_beq, if◌then◌else◌, Eq, ◌==◌,
  contains,
}

pub record PreparationCache (K : Type 0) : Type 0 where
  pub entries : List K
  pub capacity : ℕ
  pub hits : ℕ
  pub misses : ℕ
  pub evictions : ℕ

-- `__init__`
unfoldable pub init : {K : Type 0} → ℕ → Result (PreparationCache K)
init capacity =
    if nat_beq capacity 0
    then raise value_error
    else ok (record { entries = []; capacity = capacity; hits = 0; misses = 0; evictions = 0 })

-- `popitem(last=False)` while there are too many entries
unfoldable pub trim : {K : Type 0} → List K → PreparationCache K → PreparationCache K
trim [] c = record c { entries = [] }
trim (k ∷ ks) c =
    let rest = trim ks (record c { evictions = c.evictions + 1 }) in
    if ltb c.capacity (length (k ∷ ks)) then rest else record c { entries = k ∷ ks }

-- `stats`
pub record Stats : Type 0 where
  pub hits : ℕ
  pub misses : ℕ
  pub evictions : ℕ
  pub entries : ℕ
  pub capacity : ℕ

unfoldable pub stats : {K : Type 0} → PreparationCache K → Stats
stats c = record {
  hits = c.hits;
  misses = c.misses;
  evictions = c.evictions;
  entries = length c.entries;
  capacity = c.capacity;
}

module _ {K : Type 0} ⦃e : Eq K⦄ where
  unfoldable pub without : K → List K → List K
  without key [] = []
  without key (k ∷ ks) = let rest = without key ks in if k == key then rest else k ∷ rest

  -- `move_to_end` of a key that is there
  unfoldable pub move_to_end : K → List K → List K
  unfolding without
  move_to_end key ks = without key ks ++ key ∷ []

  -- `is_prepared`
  unfoldable pub is_prepared : K → PreparationCache K → Bool × PreparationCache K
  unfolding move_to_end
  is_prepared key c =
      if contains key c.entries
      then (true, record c { entries = move_to_end key c.entries; hits = c.hits + 1 })
      else (false, record c { misses = c.misses + 1 })

  -- `mark_prepared`
  unfoldable pub mark_prepared : K → PreparationCache K → PreparationCache K
  unfolding move_to_end trim
  mark_prepared key c = trim (move_to_end key c.entries) c

  -- `_clear`
  unfoldable pub clear : PreparationCache K → PreparationCache K
  clear c = record c { entries = [] }
