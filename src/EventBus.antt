-- ===== src/EventBus.antt =====
-- libs/congine-sdk/src/congine_core/infrastructure/queue_event_bus.py: the telemetry queue and its
-- worker. `Bus` has the fields that its locks guard; the worker's position is a data type; publishers
-- that were refused and have not counted their event yet are counted by `refusing`. HTTP posts and
-- the waits between attempts are outside: for each attempt, functions say whether the post succeeds
-- and whether the wait is woken by a stop. The circuit breaker is the one of this library.
pub mod Ship
pub mod Conservation
mod Examples
use congine.Breaker.{Breaker, allow, record_failure, record_success}
use congine.Prelude.{
  ℕ, zero, suc, ◌+◌, ◌-◌, Bool, true, false, not, ◌&&◌, Option, none, some, List, [], ◌∷◌, ◌++◌,
  length, is_empty, nat_beq, ltb, leb, if◌then◌else◌, ◌≡◌, ◌⊎◌,
}

pub record Settings : Type 0 where
  -- `queue.Queue(maxsize=...)` is unbounded at 0
  pub max_queue_size : ℕ
  pub batch_size : ℕ
  pub max_retries : ℕ
  -- `self._config is not None`
  pub has_plane : Bool

pub record Bus (E : Type 0) : Type 0 where
  pub queue : List E
  pub closed : Bool
  pub drain_requested : Bool
  pub final_attempts : Option ℕ
  pub dropped_total : ℕ

unfoldable pub min_attempts : Option ℕ → ℕ → ℕ
min_attempts none n = n
min_attempts (some m) n = if ltb n m then n else m

module _ {E : Type 0} where
  -- `queue.Full`
  unfoldable pub is_full : Settings → List E → Bool
  is_full s q = ltb 0 s.max_queue_size && leb s.max_queue_size (length q)

  -- the locked section of `publish`, with whether the event is accepted
  unfoldable pub offer : Settings → E → Bus E → Bool × Bus E
  unfolding is_full
  offer s event b =
      if b.closed
      then (false, b)
      else if is_full s b.queue
      then (false, b)
      else (true, record b { queue = b.queue ++ event ∷ [] })

  -- `self._dropped_total += n`
  unfoldable pub add_dropped : ℕ → Bus E → Bus E
  add_dropped n b = record b { dropped_total = b.dropped_total + n }

  -- the locked section of `_stop`
  unfoldable pub stop : Bool → Option ℕ → Bus E → Bus E
  unfolding min_attempts
  stop drain max_attempts b = record b {
    closed = true;
    drain_requested = if b.drain_requested then true else drain;
    final_attempts = elim max_attempts [
      | none ↦ b.final_attempts
      | some n ↦ some (min_attempts b.final_attempts n)
    ];
  }

-- How a batch ends: posted, or given up.
pub data Fate : Type 0 where
  shipped given_up : Fate

-- What the outside does during one `_ship`.
pub record Network : Type 0 where
  pub now : ℕ
  pub failed_at : ℕ
  pub posts : ℕ → Bool
  pub woken : ℕ → Bool

unfoldable pub on_success : Option Breaker → Option Breaker
on_success none = none
on_success (some b) = some (record_success b)

unfoldable pub on_failure : ℕ → Option Breaker → Option Breaker
on_failure now none = none
on_failure now (some b) = some (record_failure b now)

unfoldable pub let_through : ℕ → Option Breaker → Bool × Option Breaker
let_through now none = (true, none)
let_through now (some b) = let (b', answer) = allow b now in (answer, some b')

-- What `_ship_locked` leaves: the breaker, and the count of lost events it adds.
pub record Shipment : Type 0 where
  pub fate : Fate
  pub lost : ℕ
  pub breaker : Option Breaker

-- the loop `for attempt in range(1, attempts + 1)`, with the attempts that are left
unfoldable pub attempts_from : Network → ℕ → ℕ → ℕ → Option Breaker → Shipment
unfolding on_success on_failure
attempts_from net count zero attempt breaker = record {
  fate = given_up;
  lost = 0;
  breaker = breaker;
}
attempts_from net count (suc left) attempt breaker =
    let later = attempts_from net count left (suc attempt) breaker in
    if net.posts attempt
    then record { fate = shipped; lost = 0; breaker = on_success breaker }
    else if nat_beq left 0
    then record { fate = given_up; lost = count; breaker = on_failure net.failed_at breaker }
    else if net.woken attempt
    then record { fate = given_up; lost = count; breaker = breaker }
    else later

unfoldable pub attempts_of : Settings → Option ℕ → ℕ
attempts_of s none = s.max_retries
attempts_of s (some n) = n

-- `_ship_locked` of a batch of `count` events
unfoldable pub ship : Settings → Network → ℕ → Option ℕ → Option Breaker → Shipment
unfolding let_through attempts_from attempts_of
ship s net count max_attempts breaker =
    if not s.has_plane
    then record { fate = shipped; lost = 0; breaker = breaker }
    else let (answer, breaker') = let_through net.now breaker in
      if answer
      then attempts_from net count (attempts_of s max_attempts) 1 breaker'
      else record { fate = given_up; lost = count; breaker = breaker' }

-- Where the worker is: collecting a batch (`_collect_batch`), collecting one in the final flush with
-- its limit on attempts (`_flush_remaining`), or at rest, with whether it flushed.
pub data Worker (E : Type 0) : Type 0 where
  collecting : List E → Worker E
  flushing : Option ℕ → List E → Worker E
  resting : Bool → Worker E

abbrev pub in_hand : {E : Type 0} → Worker E → List E
in_hand (collecting batch) = batch
in_hand (flushing limit batch) = batch
in_hand (resting flushed) = []

-- the worker with the next event in its batch
abbrev pub taking : {E : Type 0} → E → Worker E → Worker E
taking event (collecting batch) = collecting (batch ++ event ∷ [])
taking event (flushing limit batch) = flushing limit (batch ++ event ∷ [])
taking event (resting flushed) = resting flushed

-- whether the worker takes another event into its batch
abbrev pub wants_more : {E : Type 0} → ℕ → Worker E → Bool
wants_more size (collecting []) = true
wants_more size (collecting (e ∷ es)) = ltb (length (e ∷ es)) size
wants_more size (flushing limit batch) = ltb (length batch) size
wants_more size (resting flushed) = false

-- `max_attempts`, as the worker passes it to `_ship`
abbrev pub limit_of : {E : Type 0} → Worker E → Option ℕ
limit_of (flushing limit batch) = limit
limit_of _ = none

-- the worker once its batch is gone
abbrev pub emptied : {E : Type 0} → Worker E → Worker E
emptied (collecting batch) = collecting []
emptied (flushing limit batch) = flushing limit []
emptied (resting flushed) = resting flushed

-- The bus with what its threads hold, and counts of the events published and delivered so far.
pub record World (E : Type 0) : Type 0 where
  pub bus : Bus E
  pub worker : Worker E
  pub breaker : Option Breaker
  pub refusing : ℕ
  pub published : ℕ
  pub delivered : ℕ

abbrev pub delivered_by : Fate → ℕ → ℕ
delivered_by shipped n = n
delivered_by given_up n = 0

module _ {E : Type 0} (s : Settings) where
  -- a publisher that was accepted or refused
  unfoldable pub publish : E → World E → World E
  unfolding offer
  publish event w = record w {
    bus = (offer s event w.bus).1;
    refusing = if (offer s event w.bus).0 then w.refusing else suc w.refusing;
    published = suc w.published;
  }

  -- the worker hands its batch to `_ship` and starts over
  unfoldable pub ship_batch : Network → World E → World E
  unfolding ship add_dropped
  ship_batch net w =
      let count = length (in_hand w.worker) in
      let sent = ship s net count (limit_of w.worker) w.breaker in
      record w {
        bus = add_dropped sent.lost w.bus;
        worker = emptied w.worker;
        breaker = sent.breaker;
        delivered = w.delivered + delivered_by sent.fate count;
      }

  -- One atomic section of one thread.
  pub data Step : World E → World E → Type 0 where
    publishes : (event : E) (w : World E) → Step w (publish event w)
    -- a refused publisher counts its event
    counts :
        (w : World E) (n : ℕ)
        → w.refusing ≡ suc n
        → Step w (record w { bus = add_dropped 1 w.bus; refusing = n })
    takes :
        (w : World E) (rest : List E) (event : E)
        → w.bus.queue ≡ event ∷ rest
        → wants_more s.batch_size w.worker ≡ true
        → Step w (record w { bus = record w.bus { queue = rest }; worker = taking event w.worker })
    -- the batch is complete, or the queue was found empty
    ships :
        (w : World E) (net : Network)
        → is_empty (in_hand w.worker) ≡ false
        → Step w (ship_batch net w)
    -- `stop`, and `_drain_on_exit` with its single attempt
    stops : (drain : Bool) (w : World E) → Step w (record w { bus = stop drain none w.bus })
    exits : (w : World E) → Step w (record w { bus = stop true (some 1) w.bus })
    -- the worker leaves its loop, to flush or to rest
    flushes :
        (w : World E)
        → w.worker ≡ collecting []
        → w.bus.closed ≡ true
        → w.bus.drain_requested ≡ true
        → Step w (record w { worker = flushing w.bus.final_attempts [] })
    abandons :
        (w : World E)
        → w.worker ≡ collecting []
        → w.bus.closed ≡ true
        → w.bus.drain_requested ≡ false
        → Step w (record w { worker = resting false })
    -- the flush collects an empty batch: the queue is empty, or a batch takes no event
    rests :
        (w : World E) (limit : Option ℕ)
        → w.worker ≡ flushing limit []
        → (w.bus.queue ≡ []) ⊎ (s.batch_size ≡ 0)
        → Step w (record w { worker = resting true })

  pub data Steps : World E → World E → Type 0 where
    done : (w : World E) → Steps w w
    then_step : {v w x : World E} → Steps v w → Step w x → Steps v x
