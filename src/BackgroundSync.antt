-- ===== src/BackgroundSync.antt =====
-- libs/congine-sdk/src/congine_core/infrastructure/background_sync.py: the worker that syncs at
-- intervals. Each section under the lifecycle lock is one step, and so is each step of the thread: its
-- entry into the loop, the end of a pass, and the end of a wait. Whether a thread can be started is a parameter of `start`;
-- whether a pass ends by `KeyboardInterrupt` or `SystemExit`, which the loop lets through, of a step.
pub mod Stopping
mod Examples
use congine.Json.{Result, ok, raise, Exc, lifecycle_error, memory_error}
use congine.Prelude.{ℕ, suc, ◌+◌, Bool, true, false, List, [], ◌∷◌, if◌then◌else◌}

-- Where the thread is: not made, started and before its loop, waiting for the interval, in a pass, or
-- over.
pub data Thread : Type 0 where
  no_thread started waiting syncing over : Thread

pub record Worker : Type 0 where
  pub run_immediately : Bool
  pub closed : Bool
  pub stop_event : Bool
  pub thread : Thread
  -- whether `stop` is registered to run at exit
  pub registered : Bool
  -- the passes begun so far
  pub passes : ℕ

-- `__init__` with `start_worker=False`
unfoldable pub init : Bool → Worker
init run_immediately = record {
  run_immediately = run_immediately;
  closed = false;
  stop_event = false;
  thread = no_thread;
  registered = false;
  passes = 0;
}

abbrev pub is_alive : Thread → Bool
is_alive started = true
is_alive waiting = true
is_alive syncing = true
is_alive _ = false

-- `is_running`
unfoldable pub is_running : Worker → Bool
is_running w = is_alive w.thread

-- a pass begins
abbrev pub begin_pass : Worker → Worker
begin_pass w = record w { thread = syncing; passes = suc w.passes }

-- the thread at the top of `_run_loop`
unfoldable pub enter_loop : Worker → Worker
enter_loop w = if w.run_immediately then begin_pass w else record w { thread = waiting }

-- `start`
unfoldable pub start : Bool → Worker → Result (Unit {0}) × Worker
start startable w =
    if w.closed
    then (raise lifecycle_error, w)
    else if is_alive w.thread
    then (ok tt, w)
    else if startable
    then (ok tt, record w { stop_event = false; registered = true; thread = started })
    else (
      raise memory_error,
      record w { stop_event = false; registered = false; thread = no_thread },
    )

-- the locked section of `stop`
unfoldable pub stop : Worker → Worker
stop w = if w.closed then w else record w { closed = true; stop_event = true; registered = false }

-- one step of `_run_loop`; the first pass begins without a look at the stop event
unfoldable pub thread_step : Bool → Thread → Worker → Worker
unfolding enter_loop
thread_step dies started w = enter_loop w
thread_step dies waiting w = if w.stop_event then record w { thread = over } else begin_pass w
thread_step dies syncing w =
    if dies then record w { thread = over } else record w { thread = waiting }
thread_step dies _ w = w

pub data Event : Type 0 where
  starts : Bool → Event
  stops : Event
  runs : Bool → Event

abbrev pub after_event : Event → Worker → Worker
after_event (starts startable) w = (start startable w).1
after_event stops w = stop w
after_event (runs dies) w = thread_step dies w.thread w

abbrev pub after : List Event → Worker → Worker
after [] w = w
after (e ∷ es) w = after es (after_event e w)
