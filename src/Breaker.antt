-- ===== src/Breaker.antt =====
-- libs/congine-sdk/src/congine_core/infrastructure/circuit_breaker.py: the circuit breaker.
-- A method takes the reading `now` of the injected monotonic clock and returns the new state.
-- Each method holds the lock from its first to its last line, so it is one step. Readings and
-- the cooldown are whole ticks of the clock.
pub mod Safety
pub mod Tripping
mod Examples
use congine.Prelude.{
  ℕ, ◌+◌, Bool, true, false, Option, none, some, List, [], ◌∷◌, leb, nat_beq, if◌then◌else◌,
}

pub data Phase : Type 0 where
  closed opened half_open : Phase

pub record Breaker : Type 0 where
  pub failure_threshold : ℕ
  pub cooldown : ℕ
  pub state : Phase
  pub consecutive_failures : ℕ
  pub opened_at : ℕ
  pub probe_in_flight : Bool

-- `__init__`: `none` stands for the `ValueError` of a threshold that is not positive. A negative
-- cooldown, which it refuses too, is no natural number.
unfoldable pub init : ℕ → ℕ → Option Breaker
init failure_threshold cooldown =
    if nat_beq failure_threshold 0
    then none
    else some (record {
      failure_threshold = failure_threshold;
      cooldown = cooldown;
      state = closed;
      consecutive_failures = 0;
      opened_at = 0;
      probe_in_flight = false;
    })

maybe_half_open_at : Phase → Breaker → ℕ → Breaker
maybe_half_open_at opened b now =
    if leb (b.opened_at + b.cooldown) now
    then record b { state = half_open; probe_in_flight = false }
    else b
maybe_half_open_at _ b now = b

-- `_maybe_half_open_locked`
unfoldable pub maybe_half_open : Breaker → ℕ → Breaker
unfolding maybe_half_open_at
maybe_half_open b now = maybe_half_open_at b.state b now

-- the property `state`
unfoldable pub read_state : Breaker → ℕ → Breaker × Phase
unfolding maybe_half_open
read_state b now = let b' = maybe_half_open b now in (b', b'.state)

allow_at : Phase → Breaker → Breaker × Bool
allow_at closed b = (b, true)
allow_at opened b = (b, false)
allow_at half_open b =
    if b.probe_in_flight then (b, false) else (record b { probe_in_flight = true }, true)

unfoldable pub allow : Breaker → ℕ → Breaker × Bool
unfolding maybe_half_open allow_at
allow b now = let b' = maybe_half_open b now in allow_at b'.state b'

unfoldable pub record_success : Breaker → Breaker
record_success b = record b {
  state = closed;
  consecutive_failures = 0;
  opened_at = 0;
  probe_in_flight = false;
}

record_failure_at : Phase → Breaker → ℕ → Breaker
record_failure_at half_open b now = record b {
  state = opened;
  opened_at = now;
  probe_in_flight = false;
}
record_failure_at _ b now =
    let failures = b.consecutive_failures + 1 in
    if leb b.failure_threshold failures
    then record b {
      consecutive_failures = failures;
      state = opened;
      opened_at = now;
      probe_in_flight = false;
    }
    else record b { consecutive_failures = failures; probe_in_flight = false }

unfoldable pub record_failure : Breaker → ℕ → Breaker
unfolding record_failure_at
record_failure b now = record_failure_at b.state b now

-- One call of a method by some thread, with the clock reading that it takes.
pub data Call : Type 0 where
  state_at allow_at_time failure_at_time : ℕ → Call
  success : Call

-- The new state, and the answer of an `allow`.
unfoldable pub step : Breaker → Call → Breaker × Option Bool
unfolding read_state allow record_failure record_success
step b (state_at now) = ((read_state b now).0, none)
step b (allow_at_time now) = let (b', answer) = allow b now in (b', some answer)
step b (failure_at_time now) = (record_failure b now, none)
step b success = (record_success b, none)

-- The state after a sequence of calls, in the order in which they took the lock.
unfoldable pub run : Breaker → List Call → Breaker
run b [] = b
run b (c ∷ calls) = run (step b c).0 calls
