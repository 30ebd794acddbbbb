-- ===== src/UseCase/Actions.antt =====
-- The state that the validation workflow reads and changes, and actions over it.
use congine.Json.{Result, ok, raise, Exc, load_shed, timed_out}
use congine.Models.{TelemetryEvent}
use congine.Prelude.{ℕ, ◌+◌, List, [], ◌∷◌, ◌++◌}

-- `clock n` is the n-th reading of `time.monotonic_ns`, `ticks` the readings taken so far.
pub record World (S : Type 0) : Type 0 where
  pub clock : ℕ → ℕ
  pub ticks : ℕ
  pub runs : ℕ
  pub store : S
  pub events : List TelemetryEvent

-- An action returns or raises, and what it changed stays changed.
abbrev pub M : Type 0 → Type 0 → Type 0
M S A = World S → Result A × World S

module _ {S A : Type 0} where
  unfoldable pub pure : A → M S A
  pure a w = (ok a, w)

  unfoldable pub throw : Exc → M S A
  throw e w = (raise e, w)

  unfoldable pub gets : (World S → A) → M S A
  gets f w = (ok (f w), w)

module _ {S A B : Type 0} where
  abbrev pub continue : Result A → (A → M S B) → M S B
  continue (ok a) f w = f a w
  continue (raise e) f w = (raise e, w)

  infixl 5 ◌>>=◌ ◌>>◌
  unfoldable pub ◌>>=◌ : M S A → (A → M S B) → M S B
  unfolding pure throw gets
  ◌>>=◌ m f w = continue (m w).0 f (m w).1

  abbrev pub ◌>>◌ : M S A → M S B → M S B
  m >> k = m >>= λ _. k

module _ {S : Type 0} where
  -- `time.monotonic_ns()`
  unfoldable pub tick : M S ℕ
  tick w = (ok (w.clock w.ticks), record w { ticks = w.ticks + 1 })

  -- `self.event_bus.publish(event)`, which never raises
  unfoldable pub publish : TelemetryEvent → M S (Unit {0})
  publish event w = (ok tt, record w { events = w.events ++ event ∷ [] })

-- What the runner makes of one call: it hands on what the work returns or raises, sheds the load,
-- gives up waiting, or raises something of its own.
pub data Fate : Type 0 where
  returns sheds overruns : Fate
  breaks : Exc → Fate

abbrev pub answer : {A : Type 0} → Fate → Result A → Result A
answer returns work = work
answer sheds work = raise load_shed
answer overruns work = raise timed_out
answer (breaks e) work = raise e

-- `self.timer.run_with_timeout(work, wait_ms)`, with what it raises as a value
unfoldable pub await : {S A : Type 0} → (ℕ → ℕ → Fate) → ℕ → Result A → M S (Result A)
await fate wait_ms work w = (ok (answer (fate w.runs wait_ms) work), record w { runs = w.runs + 1 })
