-- ===== src/Lib.antt =====
-- Congine governs the output of language models: an application hands a payload and the id of a
-- contract to the SDK in libs/congine-sdk/src/congine_core, which judges the payload against the stored
-- contract and publishes telemetry about the outcome. Paths below are relative to that folder.
--
-- The parts, and how they interact:
-- * Validation workflow (usecases/validate_contract_usecase.py): UseCase and its modules. `execute`
--   bounds the sizes of payload and schema, resolves the schema in the storage, runs the native and
--   then the semantic validator through the runner under absolute deadlines, merges their breaches,
--   publishes one event and applies the fail mode. Actions over `World` return or raise; the clock is
--   a sequence of readings, and the runner's answer to each call is an input.
-- * Rule engine (domain/validator.py): Validator. The six rules of `RuleEngine` are loops with a body
--   `check_*`, and `validate` is `LocalValidator.validate`.
-- * Contract admission (domain/contract_admission.py): Admission. Each `_check_*` is a function to the
--   findings that it appends; `admit_contract` takes the verdict. Vocabulary has the keyword sets and
--   `find_unenforced_keywords` (domain/schema_vocabulary.py) and the value-aware tests of
--   semantic_capability.py.
-- * Contract sync (usecases/sync_contracts_usecase.py): Sync. It fetches behind the breaker, falls back
--   to the snapshot, admits each contract and puts it into the storage. Sync/Serving runs it with the
--   LFU cache as that storage. BackgroundSync is the worker that calls it at intervals
--   (infrastructure/background_sync.py).
-- * Contract repositories (infrastructure/file_contract_repository.py, http_contract_repository.py):
--   Repository. Files scans a directory, Snapshots has the HTTP answer and the snapshot file. The file
--   system, the HTTP client and the parsers are what they answer.
-- * Semantic validator (infrastructure/jsonschema_validator.py): Semantic, with its preparation cache
--   (infrastructure/schema_preparation_cache.py) in Semantic/Cache and Semantic/Identity.
--   Semantic/Capability has the dialects and the capability derived from a validator class. The
--   jsonschema package is the record `Engine`, and `ValidatorClass` what is read off a class.
-- * Drift engine (infrastructure/ks_drift.py): Drift, with the methods of the container that use it.
-- * Guard (adapters/guard.py): Guard, the decorator's wrapper around a function, over UseCase.
-- * LangChain handler (adapters/langchain_handler.py): Handler. Hosts has the objects that are
--   inspected, Inspect the functions that inspect them, Handler the runs and the callbacks.
-- * Container (adapters/dependency_injection.py): Container is the life of one container, a step
--   relation of closing threads, the collector and interpreter exit; Container/Tenants is the registry,
--   Container/Bootstrap the start over Sync and BackgroundSync.
-- * Configuration (config.py): Config, with the readers of the environment in Config/Env.
-- * Schema cache (infrastructure/lfu_cache.py): LfuCache, over Dict, which is Python's ordered dict.
--   LfuCache/Sweeper is the thread that sweeps it.
-- * Circuit breaker (infrastructure/circuit_breaker.py): Breaker, used by Sync and by EventBus.
-- * Bounded runner (infrastructure/bounded_executor.py): Executor, a step relation of the sections that
--   its lock and its semaphore make atomic.
-- * Telemetry bus (infrastructure/queue_event_bus.py): EventBus, a step relation of publishers, the
--   worker and shutdown. Without a control plane a drained batch counts as delivered.
-- * Values of the program: Json has the values of decoded JSON and Python's builtins on them, Models
--   the records of models.py, Samples the contract of the README for the tests.
--
-- Bounds and fuel: `show_ℕ` has fuel for more digits than a number has. `walk_subschemas` has the depth
-- of the contract as fuel, and every visited node is nested less deep than the one before. The fuel of
-- `reference_cycle` is two more than the size of the contract: a pointer that it meets is the first one
-- or stands in the contract, and on a repeated one it stops. All other recursion is structural.
-- The rounds of the series of the p-value are counted down from 100, as in the source. Limits of the
-- source (20 and 50 reported items, 1000 and 50000 characters, 128 tenants) are constants.
--
-- Parameters: floats and `str` (`Floats`), the RE2 engine (`Re2`), Python's functions on texts, `json.dumps`
-- for sizes (`measure`), the jsonschema package (`Engine`), numpy, the storage, the file system, the
-- network, the thread pool, and the clock.
--
-- Not modelled: durations, log records, message texts of admission, the PII sanitizer, and the
-- construction of the components in the composition root. They are input and output, third-party
-- evaluation or construction.
pub mod Prelude
pub mod Dict
pub mod Json
pub mod Models
pub mod Samples
pub mod Validator
pub mod Breaker
pub mod Executor
pub mod EventBus
pub mod Vocabulary
pub mod LfuCache
pub mod Admission
pub mod Sync
pub mod Repository
pub mod Semantic
pub mod UseCase
pub mod Container
pub mod Drift
pub mod Handler
pub mod Guard
pub mod Config
pub mod BackgroundSync
