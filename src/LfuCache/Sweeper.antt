-- ===== src/LfuCache/Sweeper.antt =====
-- libs/congine-sdk/src/congine_core/infrastructure/lfu_cache.py: the sweeper of the schema cache. Each
-- section under the lock is one step; the thread has two, the end of a wait, and the section in which it
-- sweeps. Whether a thread can be started is a parameter of `start`.
use congine.Json.{Result, ok, raise, lifecycle_error, memory_error}
use congine.LfuCache.{LfuCache, sweep_expired}
use congine.Prelude.{
  ℕ, ◌≡◌, refl, ◌∙◌, Bool, true, false, List, [], ◌∷◌, if◌then◌else◌, Bool-cases, inl, inr,
}

-- Where the thread is: not made, waiting for the interval, before the lock, or over.
pub data Sweeper : Type 0 where
  not_made asleep awake ended : Sweeper

pub record Store (V : Type 0) : Type 0 where
  pub cache : LfuCache V
  pub closed : Bool
  pub stop_event : Bool
  pub sweeper : Sweeper
  -- whether `stop` is registered to run at exit
  pub registered : Bool

abbrev runs : Sweeper → Bool
runs asleep = true
runs awake = true
runs _ = false

module _ {V : Type 0} where
  -- `__init__` with `start_sweeper=False`
  unfoldable pub open_store : LfuCache V → Store V
  open_store cache = record {
    cache = cache;
    closed = false;
    stop_event = false;
    sweeper = not_made;
    registered = false;
  }

  -- `_ensure_open_locked`
  abbrev pub ensure_open : Store V → Result (Unit {0})
  ensure_open s = if s.closed then raise lifecycle_error else ok tt

  abbrev started : Bool → Store V → Result (Unit {0}) × Store V
  started startable s =
      if runs s.sweeper
      then (ok tt, s)
      else if startable
      then (ok tt, record s { stop_event = false; sweeper = asleep; registered = true })
      else (
        raise memory_error,
        record s { stop_event = false; sweeper = not_made; registered = false },
      )

  -- `start`
  unfoldable pub start : Bool → Store V → Result (Unit {0}) × Store V
  start startable s = elim (ensure_open s) [ raise e ↦ (raise e, s) | ok _ ↦ started startable s ]

  -- the locked section of `stop`
  unfoldable pub stop : Store V → Store V
  stop s = if s.closed then s else record s { closed = true; stop_event = true; registered = false }

  -- a step of `_sweep_loop`, with the readings of the clock in a sweep
  unfoldable pub sweeper_step : (ℕ → ℕ) → Sweeper → Store V → Store V
  sweeper_step clock asleep s =
      if s.stop_event then record s { sweeper = ended } else record s { sweeper = awake }
  sweeper_step clock awake s =
      if s.closed
      then record s { sweeper = ended }
      else record s { cache = (sweep_expired clock s.cache).0; sweeper = asleep }
  sweeper_step clock _ s = s

pub data Event : Type 0 where
  starts : Bool → Event
  stops : Event
  steps : (ℕ → ℕ) → Event

module _ {V : Type 0} where
  abbrev pub after_event : Event → Store V → Store V
  after_event (starts startable) s = (start startable s).1
  after_event stops s = stop s
  after_event (steps clock) s = sweeper_step clock s.sweeper s

  abbrev pub after : List Event → Store V → Store V
  after [] s = s
  after (e ∷ es) s = after es (after_event e s)

  Kept : Store V → Store V → Type 0
  Kept before now = (now.closed ≡ true) × (now.cache ≡ before.cache)

  step-Kept :
      (clock : ℕ → ℕ) (t : Sweeper) (s : Store V)
      → s.closed ≡ true
      → Kept s (sweeper_step clock t s)
  unfolding Kept sweeper_step
  step-Kept clock not_made s c = (c, refl)
  step-Kept clock ended s c = (c, refl)
  step-Kept clock asleep s c = elim (Bool-cases s.stop_event) [
    | inl e ↦ rw (e) (c, refl)
    | inr e ↦ rw (e) (c, refl)
  ]
  step-Kept clock awake s c = rw (c) (refl, refl)

  event-Kept : (e : Event) (s : Store V) → s.closed ≡ true → Kept s (after_event e s)
  unfolding Kept start stop
  event-Kept (starts startable) s c = rw (c) (refl, refl)
  event-Kept stops s c = rw (c) (refl, refl)
  event-Kept (steps clock) s c = step-Kept clock s.sweeper s c

  after-Kept : (es : List Event) (s : Store V) → s.closed ≡ true → Kept s (after es s)
  unfolding Kept
  after-Kept [] s c = (c, refl)
  after-Kept (e ∷ es) s c =
      let (c', same) = event-Kept e s c in
      let (c'', later) = after-Kept es (after_event e s) c' in (c'', later ∙ same)

  stop-Kept : (s : Store V) → Kept s (stop s)
  unfolding Kept stop
  stop-Kept s = elim (Bool-cases s.closed) [
    | inl e ↦ rw (e) (refl, refl)
    | inr e ↦ rw (e) (refl, refl)
  ]

  -- Once a store is stopped, it stays closed, and no start, stop or step of its sweeper, in whatever
  -- state the stop finds that, changes what is cached.
  stopped-keeps :
      (es : List Event) (s : Store V)
      → ((after (stops ∷ es) s).closed ≡ true) × ((after (stops ∷ es) s).cache ≡ s.cache)
  unfolding Kept
  stopped-keeps es s =
      let (c, same) = stop-Kept s in
      let (c', later) = after-Kept es (stop s) c in (c', later ∙ same)
