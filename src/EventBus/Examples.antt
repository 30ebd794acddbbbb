-- ===== src/EventBus/Examples.antt =====
-- Tests of the event bus, and its theorems at concrete inputs.
use congine.EventBus.{
  Settings, World, flushing, resting, Network, Steps, given_up, publishes, counts, takes, ships,
  stops, flushes, rests, done, then_step, attempts_from, ship, ship_batch, publish, stop,
  add_dropped, offer, attempts_of, let_through, on_success, on_failure, min_attempts, is_full,
}
use congine.EventBus.Conservation.{IsSound, fresh, telemetry-IsSound, flushed-accounts}
use congine.Prelude.{inl, ℕ, ◌+◌, ◌≡◌, refl, true, false, none, some, arith, [], ◌∷◌}

bus_code : Unit {0}
unfolding attempts_from ship ship_batch publish stop add_dropped offer attempts_of let_through
    on_success on_failure min_attempts is_full
bus_code = tt

-- a queue of one event, batches of two, two attempts
abbrev settings : Settings
settings = record { max_queue_size = 1; batch_size = 2; max_retries = 2; has_plane = true }

-- a network that answers nothing
abbrev dead : Network
dead = record { now = 0; failed_at = 1; posts = λ n. false; woken = λ n. false }

dead_loses : ship settings dead 3 none none ≡ record { fate = given_up; lost = 3; breaker = none }
unfolding bus_code
dead_loses = refl

-- Without an attempt a batch vanishes uncounted.
no_attempt :
    ship settings dead 3 (some 0) none ≡ record { fate = given_up; lost = 0; breaker = none }
unfolding bus_code
no_attempt = refl

-- One event is queued, a second one refused; the bus is stopped and flushed to the dead network.
abbrev w0 : World ℕ
w0 = fresh none

abbrev w1 : World ℕ
w1 = publish settings 7 w0

abbrev w2 : World ℕ
w2 = publish settings 8 w1

abbrev w3 : World ℕ
w3 = record w2 { bus = add_dropped 1 w2.bus; refusing = 0 }

abbrev w4 : World ℕ
w4 = record w3 { bus = stop true none w3.bus }

abbrev w5 : World ℕ
w5 = record w4 { worker = flushing none [] }

abbrev w6 : World ℕ
w6 = record w5 { bus = record w5.bus { queue = [] }; worker = flushing none (7 ∷ []) }

abbrev w7 : World ℕ
w7 = ship_batch settings dead w6

abbrev w8 : World ℕ
w8 = record w7 { worker = resting true }

refused-Steps : Steps settings (fresh none) w3
unfolding bus_code
refused-Steps =
    then_step (then_step (then_step (done w0) (publishes 7 w0)) (publishes 8 w1)) (counts w2 0 refl)

flushed-Steps : Steps settings (fresh none) w8
unfolding bus_code
flushed-Steps =
    then_step
      (then_step
        (then_step (then_step (then_step refused-Steps (stops true w3)) (flushes w4 refl refl refl))
          (takes w5 [] 7 refl refl))
        (ships w6 dead refl))
      (rests w7 none refl (inl refl))

telemetry-IsSound_example : IsSound settings (omega arith) w8
telemetry-IsSound_example = telemetry-IsSound settings (omega arith) none flushed-Steps

flushed-accounts_example : w8.published ≡ w8.delivered + w8.bus.dropped_total
flushed-accounts_example =
    flushed-accounts settings (omega arith) none flushed-Steps (unfold ship_batch in refl)
      (unfold bus_code in refl) (omega arith)
