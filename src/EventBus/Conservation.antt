-- ===== src/EventBus/Conservation.antt =====
-- Where each published event of the bus is, and the bound of the queue.
use congine.Breaker.{Breaker}
use congine.EventBus.{
  Settings, Bus, World, Worker, collecting, flushing, resting, in_hand, taking, wants_more,
  limit_of, emptied, Network, Step, Steps, publishes, counts, takes, ships, stops, exits, flushes,
  abandons, rests, done, then_step, is_full, offer, add_dropped, min_attempts, stop, publish,
  ship_batch, attempts_of,
}
use congine.EventBus.Ship.{ship-accounts}
use congine.Prelude.{
  ◌⊎◌, ℕ, suc, ◌+◌, ◌≤◌, ◌<◌, ◌≡◌, refl, Bool, true, false, Option, none, some, [], ◌∷◌, length,
  length-append, arith, is_empty, subst, sym,
}

abbrev pub Positive : Option ℕ → Type 0
Positive none = Unit
Positive (some n) = 0 < n

-- Once the final flush has begun the bus is closed; when it is over, nothing is left behind,
-- unless a batch takes no event.
abbrev pub Rests : {E : Type 0} → ℕ → Bus E → Worker E → Type 0
Rests size b (resting true) = ((b.queue ≡ []) ⊎ (size ≡ 0)) × (b.closed ≡ true)
Rests size b (flushing limit batch) = b.closed ≡ true
Rests size b _ = Unit

attempts_of-Positive :
    (s : Settings) → 0 < s.max_retries → (m : Option ℕ) → Positive m → 0 < attempts_of s m
unfolding attempts_of
attempts_of-Positive s retries none h = retries
attempts_of-Positive s retries (some n) h = h

min_attempts-Positive : (m : Option ℕ) → Positive m → 0 < min_attempts m 1
unfolding min_attempts
min_attempts-Positive none h = omega arith
min_attempts-Positive (some n) h = ground (arith, h)

-- A bus that was just made.
abbrev pub fresh : {E : Type 0} → Option Breaker → World E
fresh breaker = record {
  bus = record {
    queue = [];
    closed = false;
    drain_requested = false;
    final_attempts = none;
    dropped_total = 0;
  };
  worker = collecting [];
  breaker = breaker;
  refusing = 0;
  published = 0;
  delivered = 0;
}

module _ {E : Type 0} (s : Settings) (retries : 0 < s.max_retries) where
  -- Each published event is in the queue, with the worker, delivered, counted as lost, or about to
  -- be counted by its publisher.
  pub record IsSound (w : World E) : Type 0 where
    pub conserved :
        w.published
        ≡ length w.bus.queue
          + length (in_hand w.worker)
          + w.delivered
          + w.bus.dropped_total
          + w.refusing
    pub bounded : 0 < s.max_queue_size → length w.bus.queue ≤ s.max_queue_size
    pub attempts : Positive w.bus.final_attempts
    pub limited : Positive (limit_of w.worker)
    pub at_rest : Rests s.batch_size w.bus w.worker

  taking-length :
      (size : ℕ) (event : E) (k : Worker E)
      → wants_more size k ≡ true
      → length (in_hand (taking event k)) ≡ suc (length (in_hand k))
  taking-length size event (collecting batch) h = omega (arith, length-append batch (event ∷ []))
  taking-length size event (flushing limit batch) h =
      omega (arith, length-append batch (event ∷ []))
  taking-length size event (resting flushed) h = absurd (ground (arith, h))

  taking-limited :
      (event : E) (k : Worker E) → Positive (limit_of k) → Positive (limit_of (taking event k))
  taking-limited event (collecting batch) h = h
  taking-limited event (flushing limit batch) h = h
  taking-limited event (resting flushed) h = h

  taking-Rests :
      (size : ℕ) (event : E) (b c : Bus E) (k : Worker E)
      → wants_more size k ≡ true
      → c.closed ≡ b.closed
      → Rests s.batch_size b k
      → Rests s.batch_size c (taking event k)
  taking-Rests size event b c (collecting batch) h e r = tt
  taking-Rests size event b c (flushing limit batch) h e r = ground (arith, e, r)
  taking-Rests size event b c (resting flushed) h e r = absurd (ground (arith, h))

  emptied-length : (k : Worker E) → length (in_hand (emptied k)) ≡ 0
  emptied-length (collecting batch) = refl
  emptied-length (flushing limit batch) = refl
  emptied-length (resting flushed) = refl

  emptied-limited : (k : Worker E) → Positive (limit_of k) → Positive (limit_of (emptied k))
  emptied-limited (collecting batch) h = h
  emptied-limited (flushing limit batch) h = h
  emptied-limited (resting flushed) h = h

  emptied-Rests :
      (b c : Bus E) (k : Worker E)
      → is_empty (in_hand k) ≡ false
      → c.closed ≡ b.closed
      → Rests s.batch_size b k
      → Rests s.batch_size c (emptied k)
  emptied-Rests b c (collecting batch) h e r = tt
  emptied-Rests b c (flushing limit batch) h e r = ground (arith, e, r)
  emptied-Rests b c (resting flushed) h e r = absurd (ground (arith, h))

  Rests-same :
      (b c : Bus E) (k : Worker E)
      → c.queue ≡ b.queue
      → (b.closed ≡ true → c.closed ≡ true)
      → Rests s.batch_size b k
      → Rests s.batch_size c k
  Rests-same b c (collecting batch) q f h = tt
  Rests-same b c (flushing limit batch) q f h = f h
  Rests-same b c (resting false) q f h = tt
  Rests-same b c (resting true) q f h = (ground (arith, q, h), f h.1)

  offer-Rests :
      (event : E) (b : Bus E) (k : Worker E)
      → Rests s.batch_size b k
      → Rests s.batch_size (offer s event b).1 k
  unfolding offer
  offer-Rests event b (collecting batch) h = tt
  offer-Rests event b (flushing limit batch) h = ground (arith, h)
  offer-Rests event b (resting false) h = tt
  offer-Rests event b (resting true) h = (ground (arith, h), ground (arith, h))

  publish-IsSound : (event : E) (w : World E) → IsSound w → IsSound (publish s event w)
  unfolding publish offer is_full
  publish-IsSound event w v = record {
    conserved = ground (arith, v.conserved, length-append w.bus.queue (event ∷ []));
    bounded = λ h. ground (arith, v.bounded h, length-append w.bus.queue (event ∷ []));
    attempts = subst Positive (sym final_same) v.attempts;
    limited = v.limited;
    at_rest = offer-Rests event w.bus w.worker v.at_rest;
  }
    where
      final_same : (offer s event w.bus).1.final_attempts ≡ w.bus.final_attempts
      final_same = ground arith

  stop-IsSound :
      (drain : Bool) (m : Option ℕ) (w : World E)
      → Positive (stop drain m w.bus).final_attempts
      → IsSound w
      → IsSound (record w { bus = stop drain m w.bus })
  unfolding stop
  stop-IsSound drain m w p v = record {
    conserved = v.conserved;
    bounded = v.bounded;
    attempts = p;
    limited = v.limited;
    at_rest = Rests-same w.bus (stop drain m w.bus) w.worker refl (λ _. refl) v.at_rest;
  }

  ship_batch-IsSound :
      (net : Network) (w : World E)
      → is_empty (in_hand w.worker) ≡ false
      → IsSound w
      → IsSound (ship_batch s net w)
  unfolding ship_batch add_dropped
  ship_batch-IsSound net w busy v = record {
    conserved = omega (
      arith,
      v.conserved,
      emptied-length w.worker,
      ship-accounts s net (length (in_hand w.worker)) (limit_of w.worker) w.breaker
          (attempts_of-Positive s retries (limit_of w.worker) v.limited),
    );
    bounded = v.bounded;
    attempts = v.attempts;
    limited = emptied-limited w.worker v.limited;
    at_rest = emptied-Rests w.bus (ship_batch s net w).bus w.worker busy refl v.at_rest;
  }

  Step-IsSound : {w x : World E} → Step s w x → IsSound w → IsSound x
  unfolding add_dropped
  Step-IsSound (publishes event w) v = publish-IsSound event w v
  Step-IsSound (counts w n h) v = record {
    conserved = omega (arith, v.conserved, h);
    bounded = v.bounded;
    attempts = v.attempts;
    limited = v.limited;
    at_rest = Rests-same w.bus (add_dropped 1 w.bus) w.worker refl (λ c. c) v.at_rest;
  }
  Step-IsSound (takes w rest event q h) v = record {
    conserved = ground (arith, v.conserved, q, taking-length s.batch_size event w.worker h);
    bounded = λ p. ground (arith, v.bounded p, q);
    attempts = v.attempts;
    limited = taking-limited event w.worker v.limited;
    at_rest =
        taking-Rests s.batch_size event w.bus (record w.bus { queue = rest }) w.worker h refl
          v.at_rest;
  }
  Step-IsSound (ships w net busy) v = ship_batch-IsSound net w busy v
  Step-IsSound (stops drain w) v = stop-IsSound drain none w (unfold stop in v.attempts) v
  Step-IsSound (exits w) v =
      stop-IsSound true (some 1) w
        (unfold stop in min_attempts-Positive w.bus.final_attempts v.attempts) v
  Step-IsSound (flushes w k c d) v = record {
    conserved = ground (arith, v.conserved, k);
    bounded = v.bounded;
    attempts = v.attempts;
    limited = v.attempts;
    at_rest = c;
  }
  Step-IsSound (abandons w k c d) v = record {
    conserved = ground (arith, v.conserved, k);
    bounded = v.bounded;
    attempts = v.attempts;
    limited = tt;
    at_rest = tt;
  }
  Step-IsSound (rests w limit k q) v = record {
    conserved = ground (arith, v.conserved, k);
    bounded = v.bounded;
    attempts = v.attempts;
    limited = tt;
    at_rest = (q, subst (Rests s.batch_size w.bus) k v.at_rest);
  }

  Steps-IsSound : {w x : World E} → Steps s w x → IsSound w → IsSound x
  Steps-IsSound (done w) v = v
  Steps-IsSound (then_step ss t) v = Step-IsSound t (Steps-IsSound ss v)

  fresh-IsSound : (breaker : Option Breaker) → IsSound (fresh breaker)
  fresh-IsSound breaker = record {
    conserved = refl;
    bounded = λ h. omega arith;
    attempts = tt;
    limited = tt;
    at_rest = tt;
  }

  -- However publishers, the worker and shutdown interleave, and whatever the network does, for a bus
  -- that retries at least once: each published event is in the queue, in the worker's batch,
  -- delivered, counted in `dropped_total`, or refused and about to be counted; and the queue keeps
  -- its bound. Events that a stop without a drain leaves in the queue stay there, not counted.
  pub telemetry-IsSound :
      (breaker : Option Breaker) {w : World E} → Steps s (fresh breaker) w → IsSound w
  telemetry-IsSound breaker ss = Steps-IsSound ss (fresh-IsSound breaker)

  -- For a bus that retries at least once and whose batches take an event: when its worker rests after the final flush and every
  -- refused publisher has counted its event, each published event was delivered or is counted in
  -- `dropped_total`.
  pub flushed-accounts :
      (breaker : Option Breaker) {w : World E}
      → Steps s (fresh breaker) w
      → w.worker ≡ resting true
      → w.refusing ≡ 0
      → 0 < s.batch_size
      → w.published ≡ w.delivered + w.bus.dropped_total
  flushed-accounts breaker {w} ss k r batches =
      let v = telemetry-IsSound breaker ss in
      let rests = subst (Rests s.batch_size w.bus) k v.at_rest in
      ground (arith, v.conserved, k, r, rests.0, batches)
