-- ===== src/Sync.antt =====
-- libs/congine-sdk/src/congine_core/usecases/sync_contracts_usecase.py: fetching contracts, admitting
-- them and priming the schema cache. The storage and the repository are ports: `Ports` says what
-- they answer during a pass. Log records are left out.
pub mod Gate
pub mod Serving
mod Examples
mod Served
use congine.Admission.{Mode, AdmissionResult, Issue, is_error, admit_contract}
use congine.Admission.Grammar.{Code}
use congine.Breaker.{Breaker, allow, record_failure, record_success}
use congine.Json.{
  ℤ, Value, null, Fields, Floats, Re2, Result, ok, raise, Exc, sync_error, os_error, get,
}
use congine.Json.Builtins.{truthy}
use congine.Prelude.{
  ℕ, ◌+◌, String, Bool, true, false, not, ◌&&◌, Option, none, some, List, [], ◌∷◌, ◌++◌, map,
  if◌then◌else◌,
}
use congine.Vocabulary.{SemanticCapability, native_enforced_keywords, semantic_enforced_keywords}

-- What the ports answer. `interrupted` says on which schemas the interpreter gives up inside the
-- admission check, by its recursion limit or for want of memory.
pub record Ports (F S : Type 0) : Type 0 where
  -- `put`, which raises under an id that the storage cannot hash
  pub put : Value F → Value F → S → Result (Unit {0}) × S
  pub fetch : Result (List (Fields F))
  pub load_snapshot : Option (List (Fields F))
  pub save : Result (Unit {0})
  pub interrupted : Value F → Bool
  pub now : ℕ
  pub failed_at : ℕ
  -- the boot lock, `none` where none is configured or portalocker is absent
  pub boot_lock : Option Bool

pub record Settings : Type 0 where
  pub admission_mode : Mode
  pub semantic_validation_enabled : Bool
  pub semantic_format_checking : Bool
  pub semantic_capability : Option SemanticCapability

-- `_enforced_keywords`, as `__init__` composes it
unfoldable pub enforced_keywords : Settings → List String
enforced_keywords s = elim s.semantic_capability [
  | some c ↦ native_enforced_keywords ++ c.enforced_keywords
  | none ↦
      if s.semantic_validation_enabled
      then native_enforced_keywords
        ++ (semantic_enforced_keywords
            ++ (if s.semantic_format_checking then "format" ∷ [] else []))
      else native_enforced_keywords
]

-- `_last_admission_failure`: `codes` is `none` where the check itself failed.
pub record Failure (F : Type 0) : Type 0 where
  pub contract_id : Value F
  pub codes : Option (List Code)

pub record World (F S : Type 0) : Type 0 where
  pub store : S
  pub breaker : Option Breaker
  pub rejected_total : ℕ
  pub last_failure : Option (Failure F)
  pub snapshot : Option (List (Fields F))

unfoldable pub error_codes : List Issue → List Code
error_codes [] = []
error_codes (i ∷ is) =
    let rest = error_codes is in if is_error i then i.finding.code ∷ rest else rest

-- `loaded += 1` after a put that returns
abbrev pub primed : Result (Unit {0}) → Result ℕ
primed (ok u) = ok 1
primed (raise e) = raise e

abbrev pub add_loaded : ℕ → Result ℕ → Result ℕ
add_loaded n (ok m) = ok (n + m)
add_loaded n (raise e) = raise e

module _ {F S : Type 0} where
  -- `_record_rejection`
  unfoldable pub record_rejection : Value F → Option (List Code) → World F S → World F S
  record_rejection contract_id codes w = record w {
    rejected_total = w.rejected_total + 1;
    last_failure = some (record { contract_id = contract_id; codes = codes });
  }

  -- `_breaker_allows`
  unfoldable pub breaker_allows : ℕ → World F S → Bool × World F S
  breaker_allows now w = elim w.breaker [
    | none ↦ (true, w)
    | some b ↦ let (b', answer) = allow b now in (answer, record w { breaker = some b' })
  ]

  -- `_breaker_record_failure`
  unfoldable pub breaker_record_failure : ℕ → World F S → World F S
  breaker_record_failure now w = elim w.breaker [
    | none ↦ w
    | some b ↦ record w { breaker = some (record_failure b now) }
  ]

  -- `_breaker_record_success`
  unfoldable pub breaker_record_success : World F S → World F S
  breaker_record_success w = elim w.breaker [
    | none ↦ w
    | some b ↦ record w { breaker = some (record_success b) }
  ]

module _ {F S : Type 0} (fl : Floats F) (re : Re2) (parse_int : String → Option ℤ) (s : Settings)
    (ports : Ports F S) where
  -- what admission says of a schema under these settings
  unfoldable pub admission : Value F → AdmissionResult
  unfolding enforced_keywords
  admission schema =
      admit_contract re parse_int s.admission_mode (enforced_keywords s) s.semantic_capability
        schema

  -- `_admit`
  unfoldable pub admit : Value F → Value F → World F S → Bool × World F S
  unfolding admission record_rejection error_codes
  admit contract_id schema w =
      if ports.interrupted schema
      then (false, record_rejection contract_id none w)
      else if (admission schema).admitted
      then (true, w)
      else (false, record_rejection contract_id (some (error_codes (admission schema).issues)) w)

  -- the body of the loop of `_prime_cache` for a contract with an id and a schema, with the count
  unfoldable pub prime_one : Value F → Value F → World F S → Result ℕ × World F S
  unfolding admit
  prime_one contract_id schema w =
      let (admitted, w') = admit contract_id schema w in
      if admitted
      then (
        primed (ports.put contract_id schema w'.store).0,
        record w' { store = (ports.put contract_id schema w'.store).1 },
      )
      else (ok 0, w')

  -- `contract.get("id")` and `contract.get("schema")`, unless the contract is skipped
  unfoldable pub candidate : Fields F → Option (Value F × Value F)
  candidate contract = elim (get "id" contract) [
    | none ↦ none
    | some contract_id ↦ elim (get "schema" contract) [
      | none ↦ none
      | some null ↦ none
      | some schema ↦ if truthy fl contract_id then some (contract_id, schema) else none
    ]
  ]

  abbrev pub prime_candidate : Option (Value F × Value F) → World F S → Result ℕ × World F S
  prime_candidate none w = (ok 0, w)
  prime_candidate (some (contract_id, schema)) w = prime_one contract_id schema w

  -- the loop after one contract, with the rest of the loop
  abbrev pub then_prime :
      (World F S → Result ℕ × World F S) → Result ℕ × World F S → Result ℕ × World F S
  then_prime rest (raise e, w) = (raise e, w)
  then_prime rest (ok n, w) = let (more, w') = rest w in (add_loaded n more, w')

  -- `_prime_cache`; a put that raises ends it
  unfoldable pub prime_cache : List (Fields F) → World F S → Result ℕ × World F S
  unfolding prime_one candidate
  prime_cache [] w = (ok 0, w)
  prime_cache (contract ∷ contracts) w =
      then_prime (λ w'. prime_cache contracts w') (prime_candidate (candidate contract) w)

  abbrev pub save_snapshot : ℕ → List (Fields F) → World F S → Result ℕ × World F S
  save_snapshot loaded contracts w = elim ports.save [
    | ok u ↦ (ok loaded, record w { snapshot = some contracts })
    | raise os_error ↦ (ok loaded, w)
    | raise e ↦ (raise e, w)
  ]

  -- `_apply` after the cache is primed
  abbrev pub end_apply : Bool → List (Fields F) → Result ℕ × World F S → Result ℕ × World F S
  end_apply fetched contracts (raise e, w) = (raise e, w)
  end_apply fetched contracts (ok loaded, w) =
      if fetched then save_snapshot loaded contracts w else (ok loaded, w)

  -- `_apply`
  unfoldable pub apply : Option (List (Fields F)) → Bool → World F S → Result ℕ × World F S
  unfolding prime_cache
  apply none fetched w = (ok 0, w)
  apply (some []) fetched w = (ok 0, w)
  apply (some (c ∷ cs)) fetched w = end_apply fetched (c ∷ cs) (prime_cache (c ∷ cs) w)

  -- `sync_once` and its async twin
  unfoldable pub sync_once : World F S → Result ℕ × World F S
  unfolding apply breaker_allows breaker_record_failure breaker_record_success
  sync_once w =
      let (allowed, w') = breaker_allows ports.now w in
      if allowed
      then elim ports.fetch [
        | ok contracts ↦ apply (some contracts) true (breaker_record_success w')
        | raise sync_error ↦
            apply ports.load_snapshot false (breaker_record_failure ports.failed_at w')
        | raise e ↦ (raise e, w')
      ]
      else apply ports.load_snapshot false w'

  -- `load_snapshot_only`
  unfoldable pub load_snapshot_only : World F S → Result ℕ × World F S
  unfolding apply
  load_snapshot_only w = apply ports.load_snapshot false w

  -- `sync_once_single_flight` and its async twin, after the jitter
  unfoldable pub sync_once_single_flight : World F S → Result ℕ × World F S
  unfolding sync_once load_snapshot_only
  sync_once_single_flight w = elim ports.boot_lock [
    | none ↦ sync_once w
    | some true ↦ sync_once w
    | some false ↦ load_snapshot_only w
  ]
