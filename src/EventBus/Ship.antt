-- ===== src/EventBus/Ship.antt =====
-- What becomes of a batch that is handed to `_ship`.
use congine.Breaker.{Breaker}
use congine.EventBus.{
  Settings, Network, attempts_from, attempts_of, ship, delivered_by, let_through,
}
use congine.Prelude.{ℕ, zero, suc, ◌+◌, ◌<◌, ◌≡◌, Option, arith}

pub attempts_from-accounts :
    (net : Network) (count left attempt : ℕ) (breaker : Option Breaker)
    → 0 < left
    → delivered_by (attempts_from net count left attempt breaker).fate count
        + (attempts_from net count left attempt breaker).lost
      ≡ count
unfolding attempts_from
attempts_from-accounts net count zero attempt breaker h = absurd (omega arith)
attempts_from-accounts net count (suc zero) attempt breaker h = ground arith
attempts_from-accounts net count (suc (suc left)) attempt breaker h =
    ground (arith, attempts_from-accounts net count (suc left) (suc attempt) breaker (omega arith))

-- With at least one attempt, every event of a batch that is shipped is either delivered or counted
-- as lost, and never both: whatever the breaker, the network and the waits do.
pub ship-accounts :
    (s : Settings) (net : Network) (count : ℕ) (max_attempts : Option ℕ) (breaker : Option Breaker)
    → 0 < attempts_of s max_attempts
    → delivered_by (ship s net count max_attempts breaker).fate count
        + (ship s net count max_attempts breaker).lost
      ≡ count
unfolding ship
ship-accounts s net count max_attempts breaker h = ground (
  arith,
  attempts_from-accounts net count (attempts_of s max_attempts) 1 (let_through net.now breaker).1 h,
)
