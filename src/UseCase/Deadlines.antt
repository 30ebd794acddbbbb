-- ===== src/UseCase/Deadlines.antt =====
-- `_StageBudget`: absolute deadlines in nanoseconds of the monotonic clock.
use congine.Prelude.{ℕ, ◌+◌, ◌-◌, ◌*◌, ◌/◌, Bool, true, Option, none, some, min, leb, if◌then◌else◌}
use congine.UseCase.Actions.{M, tick, pure, ◌>>=◌}

pub record Budget : Type 0 where
  pub aggregate_deadline : ℕ
  pub stage_deadline : ℕ

abbrev pub ns_per_ms : ℕ
ns_per_ms = 1000000

abbrev pub stage_deadline_of : ℕ → ℕ → Option ℕ → ℕ
stage_deadline_of aggregate now none = aggregate
stage_deadline_of aggregate now (some cap) = min aggregate (now + cap * ns_per_ms)

module _ {S : Type 0} where
  -- `__init__`
  unfoldable pub new_budget : ℕ → M S Budget
  unfolding tick ◌>>=◌
  new_budget aggregate_timeout_ms = do
    now ← tick
    let deadline = now + aggregate_timeout_ms * ns_per_ms
    pure (record { aggregate_deadline = deadline; stage_deadline = deadline })

  -- `open_stage`: the milliseconds to wait, rounded down, none where the deadline has passed
  unfoldable pub open_stage : Budget → Option ℕ → M S (ℕ × Budget)
  unfolding tick ◌>>=◌
  open_stage b stage_cap_ms = do
    now ← tick
    let deadline = stage_deadline_of b.aggregate_deadline now stage_cap_ms
    pure ((deadline - now) / ns_per_ms, record b { stage_deadline = deadline })

  unfoldable pub stage_expired : Budget → M S Bool
  unfolding tick ◌>>=◌
  stage_expired b = do now ← tick; pure (leb b.stage_deadline now)

  unfoldable pub aggregate_expired : Budget → M S Bool
  unfolding tick ◌>>=◌
  aggregate_expired b = do now ← tick; pure (leb b.aggregate_deadline now)

  -- `exhausted`: the second deadline is read only if the first has not passed
  unfoldable pub exhausted : Budget → M S Bool
  unfolding stage_expired aggregate_expired
  exhausted b = do late ← stage_expired b; if late then pure true else aggregate_expired b
