-- ===== src/Breaker/Examples.antt =====
-- Tests of the circuit breaker, and its theorems at concrete inputs.
use congine.Prelude.{◌≤◌, ◌≡◌, refl, true, false, some, List, [], ◌∷◌, map, arith}
use congine.Breaker.{
  Breaker, Call, closed, opened, half_open, state_at, allow_at_time, failure_at_time, init,
  record_failure, step, run,
}
use congine.Breaker.Safety.{IsValid, init-IsValid, run-IsValid, granted, granted-le-one}
use congine.Breaker.Tripping

abbrev fresh : Breaker
fresh = record {
  failure_threshold = 2;
  cooldown = 30;
  state = closed;
  consecutive_failures = 0;
  opened_at = 0;
  probe_in_flight = false;
}

abbrev calls : List Call
calls =
    failure_at_time 1
    ∷ failure_at_time 2
    ∷ allow_at_time 5
    ∷ allow_at_time 40
    ∷ allow_at_time 41
    ∷ []

init-fresh : init 2 30 ≡ some fresh
unfolding init
init-fresh = refl

abbrev tripped : Breaker
tripped = record fresh { state = opened; consecutive_failures = 2; opened_at = 2 }

run-calls : run fresh calls ≡ record tripped { state = half_open; probe_in_flight = true }
unfolding run step
run-calls = refl

fresh-IsValid : IsValid fresh
fresh-IsValid = init-IsValid 2 30 init-fresh

run-IsValid_example : IsValid (run fresh calls)
run-IsValid_example = run-IsValid 2 30 calls init-fresh

granted-le-one_example :
    granted tripped (allow_at_time 40 ∷ state_at 41 ∷ allow_at_time 42 ∷ []) ≤ 1
granted-le-one_example =
    granted-le-one (allow_at_time 40 ∷ state_at 41 ∷ allow_at_time 42 ∷ []) tripped (ground arith)
      refl

failures-trip_example : (run fresh (map failure_at_time (1 ∷ 2 ∷ []))).state ≡ opened
failures-trip_example = Tripping.failures-trip (1 ∷ 2 ∷ []) fresh fresh-IsValid refl

one_failed : Breaker
one_failed = record fresh { consecutive_failures = 1 }

one_failed-IsValid : IsValid one_failed
unfolding one_failed
one_failed-IsValid = record { positive = omega arith; fits = (omega arith, refl) }

one_failed_trips : (record_failure one_failed 7).state ≡ opened
unfolding record_failure one_failed
one_failed_trips = refl
