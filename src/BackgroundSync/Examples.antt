-- ===== src/BackgroundSync/Examples.antt =====
-- Tests of the background sync worker, and its theorem at concrete inputs.
use congine.BackgroundSync.{
  started, syncing, init, start, stop, thread_step, Event, starts, stops, runs, after, enter_loop,
}
use congine.BackgroundSync.Stopping.{Ended, stopped-ends}
use congine.Json.{raise, lifecycle_error}
use congine.Prelude.{◌≡◌, refl, true, false, List, [], ◌∷◌, arith}

-- a start, a pass, a wait that ends, and a second start
abbrev begun : List Event
begun = starts true ∷ runs false ∷ runs false ∷ runs false ∷ starts true ∷ []

begun-passes : (after begun (init true)).passes ≡ 2
unfolding init start enter_loop thread_step
begun-passes = refl

begun-syncing : (after begun (init true)).thread ≡ syncing
unfolding init start enter_loop thread_step
begun-syncing = refl

-- an exit signal ends the thread, and the worker can be started again
restarted :
    (after
      (starts true ∷ runs false ∷ runs false ∷ runs true ∷ starts true ∷ [])
      (init false)).thread
    ≡ started
unfolding init start enter_loop thread_step
restarted = refl

start-closed : start true (stop (init true)) ≡ (raise lifecycle_error, stop (init true))
unfolding init start stop
start-closed = refl

-- a stop between a start and the thread's entry into its loop: the first pass still begins
stopped-early :
    (after (starts true ∷ stops ∷ runs false ∷ runs false ∷ runs false ∷ []) (init true)).passes ≡ 1
unfolding init start stop enter_loop thread_step
stopped-early = refl

-- the pass ends, a start is refused, the wait ends at once, and the thread is over
abbrev ending : List Event
ending = runs false ∷ starts true ∷ runs false ∷ runs false ∷ []

stopped-ends_example :
    Ended (after begun (init true)) (after (stops ∷ ending) (after begun (init true)))
stopped-ends_example = stopped-ends true begun ending (omega arith)
