-- ===== src/Breaker/Tripping.antt =====
-- When the breaker trips, and when it lets the next call through.
use congine.Prelude.{
  ℕ, ◌+◌, ◌≤◌, ◌<◌, ◌≡◌, refl, ◌↔◌, true, List, [], ◌∷◌, map, arith, length, ltb, if◌then◌else◌,
}
use congine.Breaker.{
  Breaker, closed, opened, failure_at_time, allow, record_failure, record_success, step, run,
}
use congine.Breaker.Safety.{IsValid}

failures-opened :
    (times : List ℕ) (b : Breaker)
    → b.state ≡ opened
    → b.failure_threshold ≤ b.consecutive_failures
    → (run b (map failure_at_time times)).state ≡ opened
unfolding run step
failures-opened [] b h le = h
failures-opened (t ∷ times) b h le =
    failures-opened times (record_failure b t) (ground arith) (ground arith)

-- A run of failures, starting in a valid closed breaker, leaves it closed while the failures
-- counted so far and those of the run are fewer than the threshold, and open from then on.
pub failures-trip :
    (times : List ℕ) (b : Breaker)
    → IsValid b
    → b.state ≡ closed
    → (run b (map failure_at_time times)).state
      ≡ (if ltb (b.consecutive_failures + length times) b.failure_threshold then closed else opened)
unfolding run step
failures-trip [] b v h = ground arith
failures-trip (t ∷ times) b v h =
    ground
      (arith, failures-trip times (record_failure b t), failures-opened times (record_failure b t))

-- A failure that trips a valid breaker, or a failed probe, closes the gate until the cooldown has
-- passed since that failure, and from then on the next call is let through as the probe.
allow-after_failure :
    (b : Breaker) (t now : ℕ)
    → IsValid b
    → (record_failure b t).state ≡ opened
    → ((allow (record_failure b t) now).1 ≡ true) ↔ (t + b.cooldown ≤ now)
unfolding allow record_failure
allow-after_failure b t now v h = ground arith

-- A success in any state closes the breaker: the next call is let through at any time, and it
-- takes a whole threshold of new failures to trip it.
success-recovers :
    (b : Breaker) (times : List ℕ) (now : ℕ)
    → 0 < b.failure_threshold
    → ((allow (record_success b) now).1 ≡ true)
      × ((run (record_success b) (map failure_at_time times)).state
          ≡ (if ltb (length times) b.failure_threshold then closed else opened))
unfolding allow record_success
success-recovers b times now h = (refl, ground (arith, failures-trip times (record_success b)))
