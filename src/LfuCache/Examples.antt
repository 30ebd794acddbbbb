-- ===== src/LfuCache/Examples.antt =====
-- Tests of the LFU cache, and its theorems at concrete inputs.
use congine.Dict
use congine.LfuCache.{
  LfuCache, size, evict_key, init, insert_new, increment_freq, evict_lfu, get, put, sweep_expired,
}
use congine.LfuCache.Reads.{AfterGet, get-live, live}
use congine.LfuCache.Sweeper
use congine.LfuCache.Steps.{insert_new-Agrees}
use congine.LfuCache.Valid.{Agrees, IsValid, init-IsValid}
use congine.LfuCache.Writes.{Stored, put-Stored, sweep-leaves_live}
use congine.LfuCache.Frequencies.{pop_first, min_key, setdefault_add}
use congine.Prelude.{
  true, false, ℕ, ◌<◌, String, ◌≡◌, refl, Option, none, some, [], ◌∷◌, arith, ◌>>=◌, string_eq,
}

cache_code : Unit {0}
unfolding init insert_new increment_freq evict_lfu get put sweep_expired pop_first min_key
    setdefault_add Dict.get Dict.put Dict.remove
cache_code = tt

abbrev one : LfuCache ℕ
one = insert_new (init 2 300) "a" 10 300

abbrev two : LfuCache ℕ
two = insert_new one "b" 20 301

one-Agrees : Agrees one
unfolding cache_code
one-Agrees = insert_new-Agrees (init 2 300) "a" 10 300 (init-IsValid 2 300).agrees refl

two-Agrees : Agrees two
unfolding cache_code
two-Agrees = insert_new-Agrees one "b" 20 301 one-Agrees refl

two-IsValid : IsValid two
unfolding cache_code
two-IsValid = record { agrees = two-Agrees; bounded = omega arith }

entries_of : Option (LfuCache ℕ) → Option (Dict.Dict String (ℕ × ℕ))
entries_of none = none
entries_of (some c) = some c.key_to_value

-- "b" goes first: "a" has been read.
evicts_unread :
    entries_of (do (c, _) ← get 5 two "a"; put 6 c "c" 30 none)
    ≡ some (("a", (10, 300)) ∷ ("c", (30, 306)) ∷ [])
unfolding cache_code entries_of
evicts_unread = refl

get-live_example :
    (c : LfuCache ℕ) × (get 5 two "a" ≡ some (c, live 5 (Dict.get "a" two.key_to_value)))
    × IsValid c
    × AfterGet 5 two "a" c
get-live_example = get-live 5 two "a" two-IsValid

put-Stored_example :
    (c : LfuCache ℕ) × (put 6 two "c" 30 (some 100) ≡ some c) × Stored two "c" (30, 106) c
put-Stored_example =
    put-Stored 6 two "c" 30 (some 100) two-IsValid (unfold init insert_new in omega arith)

two-Distinct : Dict.Distinct two.key_to_value
unfolding Dict.get Dict.put init insert_new
two-Distinct = (refl, (refl, tt))

sweep-leaves_live_example :
    IsValid (sweep_expired (λ _. 300) two).0
    × ((Dict.get "b" (sweep_expired (λ _. 300) two).0.key_to_value ≡ some (20, 301)
          → (Dict.get "b" two.key_to_value ≡ some (20, 301)) × (300 < 301))
        × (Dict.get "b" two.key_to_value ≡ some (20, 301)
            → 300 < 301
            → Dict.get "b" (sweep_expired (λ _. 300) two).0.key_to_value ≡ some (20, 301)))
sweep-leaves_live_example =
    sweep-leaves_live (λ _. 300) 300 300 two "b" 20 301 (λ n. omega arith) (λ n. omega arith)
      two-Distinct two-IsValid

-- the sweeper is awake when the store is stopped: it ends, and the expired entries stay
stopped-awake :
    Sweeper.after
      (Sweeper.starts true
        ∷ Sweeper.steps (λ _. 900)
        ∷ Sweeper.stops
        ∷ Sweeper.steps (λ _. 900)
        ∷ [])
      (Sweeper.open_store two)
    ≡ record {
      cache = two;
      closed = true;
      stop_event = true;
      sweeper = Sweeper.ended;
      registered = false;
    }
unfolding Sweeper.open_store Sweeper.start Sweeper.stop Sweeper.sweeper_step
stopped-awake = refl

-- a sweeper that runs evicts them
swept :
    size
      (Sweeper.after
        (Sweeper.starts true ∷ Sweeper.steps (λ _. 900) ∷ Sweeper.steps (λ _. 900) ∷ [])
        (Sweeper.open_store two)).cache
    ≡ 0
unfolding size Sweeper.open_store Sweeper.start Sweeper.sweeper_step sweep_expired init insert_new
    Dict.put evict_key Dict.remove
swept = refl
