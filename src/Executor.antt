-- ===== src/Executor.antt =====
-- libs/congine-sdk/src/congine_core/infrastructure/bounded_executor.py: the bounded, load-shedding
-- runner. `Executor` has the fields that its lock guards and the value of its semaphore. The thread
-- pool and its futures belong to Python's library: `Pool` counts the futures that are not done, and
-- the done ones by how far their callback `_release` has come, and whether the pool accepts a
-- task is an argument. What interleaves are the sections that a lock or the semaphore makes atomic.
pub mod Capacity
mod Examples
use congine.Json.{Result, ok, raise, Exc, value_error, lifecycle_error, load_shed}
use congine.Prelude.{ℕ, zero, suc, ◌+◌, ◌-◌, Bool, true, false, nat_beq, ltb, if◌then◌else◌, ◌≡◌}

pub record Executor : Type 0 where
  pub capacity : ℕ
  -- the value of `_sem`, a BoundedSemaphore
  pub permits : ℕ
  pub in_flight : ℕ
  pub rejected_total : ℕ
  pub shutdown : Bool

-- `__init__`; `max_pending` is not negative
unfoldable pub init : ℕ → ℕ → Result Executor
init max_workers max_pending =
    if nat_beq max_workers 0
    then raise value_error
    else ok (record {
      capacity = max_workers + max_pending;
      permits = max_workers + max_pending;
      in_flight = 0;
      rejected_total = 0;
      shutdown = false;
    })

-- `_acquire_and_submit`, with whether the thread pool takes the task
unfoldable pub acquire_and_submit : Bool → Executor → Result (Unit {0}) × Executor
acquire_and_submit accepts x =
    if x.shutdown
    then (raise lifecycle_error, x)
    else if nat_beq x.permits 0
    then (raise load_shed, record x { rejected_total = x.rejected_total + 1 })
    else if accepts
    then (ok tt, record x { permits = x.permits - 1; in_flight = x.in_flight + 1 })
    else (raise lifecycle_error, record x { shutdown = true })

-- `_ensure_open`
unfoldable pub ensure_open : Executor → Result (Unit {0})
ensure_open x = if x.shutdown then raise lifecycle_error else ok tt

-- How `run_with_timeout` and its async twin run the work.
pub data Entry : Type 0 where
  inline submitted : Entry

-- `run_with_timeout` up to the point where the work runs or waits for a worker
unfoldable pub enter : Bool → Bool → Executor → Result Entry × Executor
unfolding acquire_and_submit ensure_open
enter on_worker_thread accepts x =
    if on_worker_thread
    then elim (ensure_open x) [ ok u ↦ (ok inline, x) | raise e ↦ (raise e, x) ]
    else let (answer, y) = acquire_and_submit accepts x in
      elim answer [ ok u ↦ (ok submitted, y) | raise e ↦ (raise e, y) ]

-- the locked section of `_release`
unfoldable pub release_in_flight : Executor → Executor
release_in_flight x = record x { in_flight = x.in_flight - 1 }

-- `self._sem.release()`, which raises when the semaphore would exceed its initial value
unfoldable pub release_permit : Executor → Result Executor
release_permit x =
    if ltb x.permits x.capacity
    then ok (record x { permits = x.permits + 1 })
    else raise value_error

-- the locked section of `shutdown`
unfoldable pub shut_down : Executor → Executor
shut_down x = record x { shutdown = true }

pub record Pool : Type 0 where
  pub executor : Executor
  -- futures that are not done
  pub futures : ℕ
  -- futures that are done, whose callback has not counted them out yet
  pub finished : ℕ
  -- callbacks between their locked section and the semaphore
  pub releasing : ℕ

-- the futures after a submission with this outcome
unfoldable pub futures_after : {A : Type 0} → Result A → ℕ → ℕ
futures_after (ok _) n = suc n
futures_after (raise e) n = n

unfoldable pub submit : Bool → Pool → Pool
unfolding futures_after acquire_and_submit
submit accepts p = record {
  executor = (acquire_and_submit accepts p.executor).1;
  futures = futures_after (acquire_and_submit accepts p.executor).0 p.futures;
  finished = p.finished;
  releasing = p.releasing;
}

-- One atomic section of one thread.
pub data Step : Pool → Pool → Type 0 where
  submits : (accepts : Bool) (p : Pool) → Step p (submit accepts p)
  -- a future is done, by a value, an exception or its cancellation
  finishes :
      (p : Pool) (n : ℕ)
      → p.futures ≡ suc n
      → Step p (record p { futures = n; finished = suc p.finished })
  -- the locked section of its callback
  counts_out :
      (p : Pool) (n : ℕ)
      → p.finished ≡ suc n
      → Step p (record p {
        executor = release_in_flight p.executor;
        finished = n;
        releasing = suc p.releasing;
      })
  releases :
      (p : Pool) (n : ℕ) (x : Executor)
      → p.releasing ≡ suc n
      → release_permit p.executor ≡ ok x
      → Step p (record p { executor = x; releasing = n })
  -- the semaphore refuses: the callback raises, and the permit is lost
  overflows :
      (p : Pool) (n : ℕ)
      → p.releasing ≡ suc n
      → release_permit p.executor ≡ raise value_error
      → Step p (record p { releasing = n })
  shuts_down : (p : Pool) → Step p (record p { executor = shut_down p.executor })

pub data Steps : Pool → Pool → Type 0 where
  done : (p : Pool) → Steps p p
  then_step : {p q r : Pool} → Steps p q → Step q r → Steps p r
