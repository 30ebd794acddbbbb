-- ===== src/Executor/Examples.antt =====
-- Tests of the bounded runner, and its theorems at concrete inputs.
use congine.Executor.{
  Executor, Pool, Steps, init, acquire_and_submit, submit, submits, finishes, counts_out, shut_down,
  done, then_step, futures_after, release_in_flight, release_permit,
}
use congine.Executor.Capacity.{IsSound, fresh, reached-IsSound, sheds-iff-full, closed-no_new_work}
use congine.Json.{ok, raise, load_shed, lifecycle_error}
use congine.Prelude.{◌+◌, ◌≤◌, ◌≡◌, ◌↔◌, refl, true, false}

executor_code : Unit {0}
unfolding init acquire_and_submit submit futures_after release_in_flight release_permit shut_down
executor_code = tt

-- one worker and one pending slot
abbrev small : Executor
small = record { capacity = 2; permits = 2; in_flight = 0; rejected_total = 0; shutdown = false }

small-init : init 1 1 ≡ ok small
unfolding executor_code
small-init = refl

abbrev full : Pool
full = submit true (submit true (fresh small))

full-Steps : Steps (fresh small) full
full-Steps =
    then_step (then_step (done (fresh small)) (submits true (fresh small)))
      (submits true (submit true (fresh small)))

full_sheds : (acquire_and_submit true full.executor).0 ≡ raise load_shed
unfolding executor_code
full_sheds = refl

closed_refuses : (acquire_and_submit true (shut_down small)).0 ≡ raise lifecycle_error
unfolding executor_code
closed_refuses = refl

full_live : full.executor.shutdown ≡ false
unfolding executor_code
full_live = refl

sheds-iff-full_example :
    ((acquire_and_submit true full.executor).0 ≡ raise load_shed)
    ↔ (full.executor.in_flight + full.releasing ≡ full.executor.capacity)
sheds-iff-full_example = sheds-iff-full 1 1 true small-init full-Steps full_live

abbrev one_done : Pool
one_done = record {
  executor = release_in_flight full.executor;
  futures = 1;
  finished = 0;
  releasing = 1;
}

one_done-Steps : Steps (fresh small) one_done
unfolding executor_code
one_done-Steps =
    then_step (then_step full-Steps (finishes full 1 refl))
      (counts_out (record full { futures = 1; finished = 1 }) 0 refl)

reached-IsSound_example : IsSound one_done
reached-IsSound_example = reached-IsSound 1 1 small-init one_done-Steps

abbrev shut_pool : Pool
shut_pool = record full { executor = shut_down full.executor }

shut_closed : shut_pool.executor.shutdown ≡ true
unfolding executor_code
shut_closed = refl

closed-no_new_work_example :
    ((submit true shut_pool).executor.shutdown ≡ true)
    × ((submit true shut_pool).futures ≤ shut_pool.futures)
closed-no_new_work_example =
    closed-no_new_work shut_closed (then_step (done shut_pool) (submits true shut_pool))
