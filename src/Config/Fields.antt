-- ===== src/Config/Fields.antt =====
-- The fields of `CongineConfig` of libs/congine-sdk/src/congine_core/config.py, and the types of what it
-- reads. `Tuning` has the fields that no method of the class reads.
use congine.Admission.{Mode}
use congine.Json.{ℤ}
use congine.Prelude.{String, Bool, Option, List}
use congine.UseCase.{FailMode}

pub data Region : Type 0 where
  us eu apac : Region

pub data DeploymentMode : Type 0 where
  single_tenant multi_tenant : DeploymentMode

pub data ContractSource : Type 0 where
  http file : ContractSource

-- What a check answers: a value, a CongineConfigurationError, or the ValueError of `urlparse`.
pub data Checked (A : Type 0) : Type 0 where
  fine : A → Checked A
  misconfigured bad_url : Checked A

infixl 5 ◌>>=◌
abbrev pub ◌>>=◌ : {A B : Type 0} → Checked A → (A → Checked B) → Checked B
fine a >>= f = f a
misconfigured >>= f = misconfigured
bad_url >>= f = bad_url

-- Python's functions on texts; `hostname` is the one of `urlparse(url)`, `int` and `float` are `none`
-- where they raise.
pub record Python (F : Type 0) : Type 0 where
  pub strip : String → String
  pub lower : String → String
  pub upper : String → String
  pub split_commas : String → List String
  pub hostname : String → Checked (Option String)
  pub int : String → Option ℤ
  pub float : String → Option F

-- A value that is given for an enum's field: a member, a text, or anything else.
pub data Raw (A : Type 0) : Type 0 where
  member : A → Raw A
  wire : String → Raw A
  alien : Raw A

-- A value that is given for a stage's cap: `None`, an integer, or anything else, a bool among them.
pub data Cap : Type 0 where
  unset : Cap
  milliseconds : ℤ → Cap
  no_integer : Cap

pub record Tuning (F : Type 0) : Type 0 where
  pub cache_capacity : ℤ
  pub cache_ttl_seconds : ℤ
  pub cache_sweep_interval_seconds : F
  pub sync_enabled : Bool
  pub sync_interval_seconds : ℤ
  pub semantic_validation_enabled : Bool
  pub semantic_max_breaches : ℤ
  pub semantic_format_checking : Bool
  pub drift_threshold : F
  pub drift_sample_limit : ℤ
  pub jsonschema_draft : String
  pub validation_max_workers : ℤ
  pub validation_max_pending : ℤ
  pub contracts_dir : Option String
  pub local_contracts_dir : Option String
  pub telemetry_enabled : Bool
  pub telemetry_queue_size : ℤ
  pub telemetry_batch_size : ℤ
  pub telemetry_max_retries : ℤ
  pub telemetry_backoff_base : F
  pub telemetry_backoff_max : F
  pub control_plane_http_timeout_seconds : F
  pub snapshot_dir : Option String
  pub snapshot_lock_timeout_seconds : F
  pub log_level : String
  pub breaker_failure_threshold : ℤ
  pub breaker_cooldown_seconds : F
  pub max_payload_bytes : ℤ
  pub max_schema_bytes : ℤ
  pub max_contract_files : ℤ
  pub max_contract_file_bytes : ℤ
  pub max_stream_buffer_chars : ℤ
  pub max_http_response_bytes : ℤ
  pub start_background_services : Bool

-- The fields of `CongineConfig` that its own methods read, with the enums' as they are given.
pub record Given (F : Type 0) : Type 0 where
  pub base_url : String
  pub api_key : Option String
  pub project_id : Option String
  pub tenant_id : Option String
  pub region : Raw Region
  pub validation_timeout_ms : ℤ
  pub native_validation_timeout_ms : Cap
  pub semantic_validation_timeout_ms : Cap
  pub fail_mode : Raw FailMode
  pub contract_source : Raw ContractSource
  pub deployment_mode : Raw DeploymentMode
  pub contract_admission : Raw Mode
  pub require_https : Bool
  pub allow_cleartext : Bool
  pub log_safe_fields : Option (List String)
  pub log_redaction_enabled : Bool
  pub tuning : Tuning F

-- and once they are normalized
pub record Config (F : Type 0) : Type 0 where
  pub given : Given F
  pub region : Region
  pub fail_mode : FailMode
  pub contract_source : ContractSource
  pub deployment_mode : DeploymentMode
  pub contract_admission : Mode
