-- ===== src/Breaker/Safety.antt =====
-- The invariant of the circuit breaker, and the single probe.
use congine.Prelude.{
  ℕ, suc, ◌≤◌, ◌<◌, ◌≡◌, ◌≢◌, refl, all, if◌then◌else◌, Bool, true, false, Option, none, some, List,
  [], ◌∷◌, arith,
}
use congine.Breaker.{
  Breaker, Phase, closed, opened, half_open, Call, state_at, allow_at_time, failure_at_time,
  success, init, step, run,
}

-- What the phase says of the failure counter and of the probe.
abbrev pub PhaseFits : Phase → Breaker → Type 0
PhaseFits closed b = (b.consecutive_failures < b.failure_threshold) × (b.probe_in_flight ≡ false)
PhaseFits opened b = (b.failure_threshold ≤ b.consecutive_failures) × (b.probe_in_flight ≡ false)
PhaseFits half_open b = b.failure_threshold ≤ b.consecutive_failures

pub record IsValid (b : Breaker) : Type 0 where
  pub positive : 0 < b.failure_threshold
  pub fits : PhaseFits b.state b

pub init-IsValid :
    (threshold cooldown : ℕ) {b : Breaker} → init threshold cooldown ≡ some b → IsValid b
unfolding init
init-IsValid threshold cooldown h = ground arith

pub step-IsValid : (b : Breaker) (c : Call) → IsValid b → IsValid (step b c).0
unfolding step
step-IsValid b (state_at now) v = ground arith
step-IsValid b (allow_at_time now) v = ground arith
step-IsValid b (failure_at_time now) v = ground arith
step-IsValid b success v = ground arith

run_from-IsValid : (calls : List Call) (b : Breaker) → IsValid b → IsValid (run b calls)
unfolding run
run_from-IsValid [] b v = v
run_from-IsValid (c ∷ calls) b v = run_from-IsValid calls (step b c).0 (step-IsValid b c v)

-- From a fresh breaker, whatever calls come in whatever order: while it is closed the failure
-- counter is below the threshold, while it is not closed the counter has reached the threshold,
-- and a probe is in flight only while it is half open.
pub run-IsValid :
    (threshold cooldown : ℕ) {b : Breaker} (calls : List Call)
    → init threshold cooldown ≡ some b
    → IsValid (run b calls)
run-IsValid threshold cooldown {b} calls h =
    run_from-IsValid calls b (init-IsValid threshold cooldown h)

-- A call that reports no outcome of a protected call.
abbrev pub reports_nothing : Call → Bool
reports_nothing (state_at now) = true
reports_nothing (allow_at_time now) = true
reports_nothing _ = false

-- How many `allow`s of the sequence are granted.
pub granted : Breaker → List Call → ℕ
granted b [] = 0
granted b (c ∷ calls) =
    let rest = granted (step b c).0 calls in if granted_one (step b c).1 then suc rest else rest
  where
    granted_one : Option Bool → Bool
    granted_one (some answer) = answer
    granted_one none = false

-- While the probe is in flight, no other call is let through.
granted-probing :
    (calls : List Call) (b : Breaker)
    → b.state ≡ half_open
    → b.probe_in_flight ≡ true
    → all reports_nothing calls ≡ true
    → granted b calls ≡ 0
unfolding granted step
granted-probing [] b h p q = refl
granted-probing (state_at now ∷ calls) b h p q =
    ground (arith, granted-probing calls (step b (state_at now)).0)
granted-probing (allow_at_time now ∷ calls) b h p q =
    ground (arith, granted-probing calls (step b (allow_at_time now)).0)
granted-probing (_ ∷ calls) b h p q = ground arith

-- From any breaker that is not closed, at whatever times and from however many callers: until an
-- outcome is reported, at most one call is let through.
pub granted-le-one :
    (calls : List Call) (b : Breaker)
    → b.state ≢ closed
    → all reports_nothing calls ≡ true
    → granted b calls ≤ 1
unfolding granted step
granted-le-one [] b h q = omega arith
granted-le-one (state_at now ∷ calls) b h q =
    ground (arith, granted-le-one calls (step b (state_at now)).0)
granted-le-one (allow_at_time now ∷ calls) b h q = ground (
  arith,
  granted-le-one calls (step b (allow_at_time now)).0,
  granted-probing calls (step b (allow_at_time now)).0,
)
granted-le-one (_ ∷ calls) b h q = ground arith
