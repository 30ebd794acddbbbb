-- ===== src/Executor/Capacity.antt =====
-- The permits of the runner: none is lost, none is made, and load is shed only at capacity.
use congine.Executor.{
  Executor, Pool, Step, Steps, init, acquire_and_submit, release_in_flight, release_permit,
  shut_down, futures_after, submit, submits, finishes, counts_out, releases, overflows, shuts_down,
  done, then_step,
}
use congine.Json.{ok, raise, load_shed}
use congine.Prelude.{ℕ, suc, ◌+◌, ◌≤◌, ◌≡◌, ◌↔◌, refl, Bool, true, false, arith}

-- Every permit is in the semaphore, with a future that is not counted out, or with a callback that is
-- about to return it.
pub record IsSound (p : Pool) : Type 0 where
  pub counted : p.executor.in_flight ≡ p.futures + p.finished
  pub conserved : p.executor.permits + p.futures + p.finished + p.releasing ≡ p.executor.capacity

-- a pool that was just made
abbrev pub fresh : Executor → Pool
fresh x = record { executor = x; futures = 0; finished = 0; releasing = 0 }

fresh-IsSound :
    (workers pending : ℕ) {x : Executor} → init workers pending ≡ ok x → IsSound (fresh x)
unfolding init
fresh-IsSound workers pending h = record { counted = ground arith; conserved = ground arith }

Step-IsSound : {p q : Pool} → Step p q → IsSound p → IsSound q
unfolding submit acquire_and_submit futures_after release_in_flight release_permit shut_down
Step-IsSound (submits accepts p) v = record {
  counted = ground (arith, v.counted);
  conserved = ground (arith, v.conserved);
}
Step-IsSound (finishes p n h) v = record {
  counted = ground (arith, v.counted, h);
  conserved = ground (arith, v.conserved, h);
}
Step-IsSound (counts_out p n h) v = record {
  counted = ground (arith, v.counted, h);
  conserved = ground (arith, v.conserved, h);
}
Step-IsSound (releases p n x h e) v = record {
  counted = ground (arith, v.counted, h, e);
  conserved = ground (arith, v.conserved, h, e);
}
Step-IsSound (overflows p n h e) v = absurd (ground (arith, v.conserved, h, e))
Step-IsSound (shuts_down p) v = record { counted = v.counted; conserved = v.conserved }

Steps-IsSound : {p q : Pool} → Steps p q → IsSound p → IsSound q
Steps-IsSound (done p) v = v
Steps-IsSound (then_step ss s) v = Step-IsSound s (Steps-IsSound ss v)

-- However the threads interleave, from a fresh pool on: the in-flight count is the number of
-- futures that are not done or whose callback has not counted them out yet, and these with the free
-- permits and those being returned make the capacity.
pub reached-IsSound :
    (workers pending : ℕ) {x : Executor} {p : Pool}
    → init workers pending ≡ ok x
    → Steps (fresh x) p
    → IsSound p
reached-IsSound workers pending h ss = Steps-IsSound ss (fresh-IsSound workers pending h)

-- In a pool reached from a fresh one, a callback that returns its permit is never refused by the
-- bounded semaphore.
release_permit-accepts :
    (workers pending : ℕ) {x : Executor} {p : Pool} (n : ℕ)
    → init workers pending ≡ ok x
    → Steps (fresh x) p
    → p.releasing ≡ suc n
    → release_permit p.executor ≡ ok (record p.executor { permits = p.executor.permits + 1 })
unfolding release_permit
release_permit-accepts workers pending n h ss r =
    let v = reached-IsSound workers pending h ss in ground (arith, v.conserved, r)

-- In a pool reached from a fresh one that is not shut down, work is shed exactly when the futures
-- in flight, which are not counted out yet, and the permits being returned make up the whole
-- capacity.
pub sheds-iff-full :
    (workers pending : ℕ) {x : Executor} {p : Pool} (accepts : Bool)
    → init workers pending ≡ ok x
    → Steps (fresh x) p
    → p.executor.shutdown ≡ false
    → ((acquire_and_submit accepts p.executor).0 ≡ raise load_shed)
      ↔ (p.executor.in_flight + p.releasing ≡ p.executor.capacity)
unfolding acquire_and_submit
sheds-iff-full workers pending accepts h ss live =
    let v = reached-IsSound workers pending h ss in
    (
      λ e. ground (arith, v.counted, v.conserved, live, e),
      λ e. ground (arith, v.counted, v.conserved, live, e),
    )

closed-Step :
    {p q : Pool}
    → Step p q
    → p.executor.shutdown ≡ true
    → (q.executor.shutdown ≡ true) × (q.futures ≤ p.futures)
unfolding submit acquire_and_submit futures_after release_in_flight release_permit shut_down
closed-Step (submits accepts p) c = ground (arith, c)
closed-Step (finishes p n h) c = (c, omega (arith, h))
closed-Step (counts_out p n h) c = (c, omega arith)
closed-Step (releases p n x h e) c = ground (arith, c, e)
closed-Step (overflows p n h e) c = (c, omega arith)
closed-Step (shuts_down p) c = (refl, omega arith)

-- Shutdown is final: whatever follows, the runner stays closed and no work is added to the pool.
pub closed-no_new_work :
    {p q : Pool}
    → p.executor.shutdown ≡ true
    → Steps p q
    → (q.executor.shutdown ≡ true) × (q.futures ≤ p.futures)
closed-no_new_work c (done p) = (c, omega arith)
closed-no_new_work c (then_step ss s) =
    let (c', le) = closed-Step s (closed-no_new_work c ss).0 in
    (c', omega (arith, le, (closed-no_new_work c ss).1))
