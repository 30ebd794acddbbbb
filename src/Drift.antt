-- ===== src/Drift.antt =====
-- libs/congine-sdk/src/congine_core/infrastructure/ks_drift.py: the drift engine, and the two methods
-- of `ServiceContainer` (adapters/dependency_injection.py) that use it. Python's float arithmetic and
-- numpy are parameters; the deque is the list of its samples, the oldest first.
pub mod Window
mod Examples
use congine.Container.{Container, ensure_open}
use congine.Json.{Result, ok, raise, value_error, ◌>>=◌}
use congine.Prelude.{
  ℕ, zero, suc, ◌+◌, ◌*◌, String, Bool, true, false, not, Option, none, some, List, [], ◌∷◌, ◌++◌,
  map, leb, length, is_empty, nat_beq, if◌then◌else◌,
}

-- Floats, with the literals of the source by their text.
pub record Floats (F : Type 0) : Type 0 where
  pub literal : String → F
  pub of_nat : ℕ → F
  pub plus : F → F → F
  pub minus : F → F → F
  pub times : F → F → F
  pub over : F → F → F
  pub magnitude : F → F
  pub sqrt : F → F
  pub exp : F → F
  pub negate : F → F
  pub at_most : F → F → Bool
  pub exceeds : F → F → Bool
  -- Python's `min` and `max`
  pub smaller : F → F → F
  pub larger : F → F → F

-- `np.sort`, `np.searchsorted(_, _, side="right")` and `np.max`
pub record Numpy (F : Type 0) : Type 0 where
  pub sort : List F → List F
  pub searchsorted : List F → List F → List ℕ
  pub max : List F → F

pub record DriftResult (F : Type 0) : Type 0 where
  pub statistic : F
  pub p_value : F
  pub drift_detected : Bool
  pub n_reference : ℕ
  pub n_sample : ℕ

pub record Engine (F : Type 0) : Type 0 where
  pub threshold : F
  pub max_samples : ℕ
  pub reference : List F

module _ {F : Type 0} where
  -- `__init__`
  unfoldable pub init : F → ℕ → Result (Engine F)
  init threshold max_samples =
      if nat_beq max_samples 0
      then raise value_error
      else ok (record { threshold = threshold; max_samples = max_samples; reference = [] })

  abbrev tail : List F → List F
  tail [] = []
  tail (x ∷ xs) = xs

  -- `append` of a deque with that `maxlen`
  unfoldable pub append : ℕ → F → List F → List F
  append maxlen value xs =
      if leb maxlen (length xs) then tail (xs ++ value ∷ []) else xs ++ value ∷ []

  -- `add_reference`
  unfoldable pub add_reference : F → Engine F → Engine F
  unfolding append
  add_reference value e = record e { reference = append e.max_samples value e.reference }

  -- `add_reference_samples`
  unfoldable pub add_reference_samples : List F → Engine F → Engine F
  unfolding add_reference
  add_reference_samples [] e = e
  add_reference_samples (value ∷ values) e = add_reference_samples values (add_reference value e)

  -- `sample_count`, `is_full` and `reset`
  unfoldable pub sample_count : Engine F → ℕ
  sample_count e = length e.reference

  unfoldable pub is_full : Engine F → Bool
  is_full e = leb e.max_samples (length e.reference)

  unfoldable pub reset : Engine F → Engine F
  reset e = record e { reference = [] }

module _ {F : Type 0} (fl : Floats F) where
  -- the loop of `_ks_p_value` from `k` on, with the rounds that are left
  unfoldable pub series : F → ℕ → ℕ → F → F → F
  series t zero k total sign = total
  series t (suc left) k total sign =
      let term = fl.times (fl.times (fl.literal "2.0") sign) (
        fl.exp (
          fl.times
            (fl.times (fl.times (fl.times (fl.literal "-2.0") (fl.of_nat k)) (fl.of_nat k)) t)
            t)) in
      let later = series t left (suc k) (fl.plus total term) (fl.negate sign) in
      if fl.at_most (fl.magnitude term) (fl.literal "1e-10") then fl.plus total term else later

  -- `_ks_p_value`
  unfoldable pub ks_p_value : F → ℕ → ℕ → F
  unfolding series
  ks_p_value statistic n1 n2 =
      let en = fl.sqrt (fl.over (fl.of_nat (n1 * n2)) (fl.of_nat (n1 + n2))) in
      let t =
        fl.times (fl.plus (fl.plus en (fl.literal "0.12")) (fl.over (fl.literal "0.11") en))
          statistic in
      if fl.at_most t (fl.literal "0.0")
      then fl.literal "1.0"
      else fl.larger (fl.literal "0.0")
          (fl.smaller (fl.literal "1.0") (series t 100 1 (fl.literal "0.0") (fl.literal "1.0")))

  differences : List F → List F → List F
  differences (x ∷ xs) (y ∷ ys) = fl.magnitude (fl.minus x y) ∷ differences xs ys
  differences _ _ = []

  -- the statistic of `detect`
  unfoldable pub ks_statistic : Numpy F → List F → List F → F
  unfolding differences
  ks_statistic np reference sample =
      let ref = np.sort reference in
      let cur = np.sort sample in
      let merged = ref ++ cur in
      let cdf_ref =
        map (λ n. fl.over (fl.of_nat n) (fl.of_nat (length ref))) (np.searchsorted ref merged) in
      let cdf_cur =
        map (λ n. fl.over (fl.of_nat n) (fl.of_nat (length cur))) (np.searchsorted cur merged) in
      np.max (differences cdf_ref cdf_cur)

  abbrev drift_result : F → F → ℕ → ℕ → DriftResult F
  drift_result threshold statistic n_reference n_sample = record {
    statistic = statistic;
    p_value = ks_p_value statistic n_reference n_sample;
    drift_detected = fl.exceeds statistic threshold;
    n_reference = n_reference;
    n_sample = n_sample;
  }

  -- How `detect` ends; without numpy, with an ImportError.
  pub data Detection : Type 0 where
    detected : DriftResult F → Detection
    import_error empty_sample : Detection

  -- `detect`
  unfoldable pub detect : Option (Numpy F) → List F → Engine F → Detection
  unfolding ks_statistic ks_p_value
  detect none current e = import_error
  detect (some np) current e =
      if is_empty e.reference
      then empty_sample
      else if is_empty current
      then empty_sample
      else detected (
          drift_result e.threshold (ks_statistic np e.reference current)
            (length (np.sort e.reference)) (length (np.sort current)))

-- What `evaluate_drift` does: it answers, with the events it publishes, or raises an error of the
-- life cycle, a configuration error, or a ValueError.
pub data Evaluation (F : Type 0) : Type 0 where
  evaluated : DriftResult F → List (DriftResult F) → Evaluation F
  closed misconfigured unusable : Evaluation F

module _ {F : Type 0} (fl : Floats F) where
  abbrev published : DriftResult F → List (DriftResult F)
  published r = if r.drift_detected then r ∷ [] else []

  abbrev evaluation_of : Detection fl → Evaluation F
  evaluation_of (detected r) = evaluated r (published r)
  evaluation_of import_error = misconfigured
  evaluation_of empty_sample = unusable

  -- `evaluate_drift` of the container; an event carries the result
  unfoldable pub evaluate_drift : Container → Option (Numpy F) → List F → Engine F → Evaluation F
  unfolding detect ensure_open
  evaluate_drift c np current e = elim (ensure_open c) [
    | raise x ↦ closed
    | ok u ↦ evaluation_of (detect fl np current e)
  ]

  -- `record_drift_sample` of the container
  unfoldable pub record_drift_sample : Container → F → Engine F → Result (Engine F)
  unfolding add_reference ensure_open
  record_drift_sample c value e = do open_ ← ensure_open c; ok (add_reference value e)
