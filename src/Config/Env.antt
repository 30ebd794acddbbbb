-- ===== src/Config/Env.antt =====
-- `from_env` of libs/congine-sdk/src/congine_core/config.py, and its readers of single variables. The
-- environment is a function; a literal of a float is given by its text.
use congine.Config.{
  Checked, fine, misconfigured, ◌>>=◌, member, Cap, unset, milliseconds, Config, Tuning, Python,
  by_value, DeploymentMode, regions, fail_modes, deployment_modes, contract_sources,
  admission_modes, absent, construct,
}
use congine.Json.{ℤ, pos}
use congine.Prelude.{
  ℕ, String, Bool, true, false, Option, none, some, List, [], ◌∷◌, nat_beq, count, contains,
  string_eq, if◌then◌else◌,
}

abbrev pub Environment : Type 0
Environment = String → Option String

-- `_TRUE_VALUES` and `_FALSE_VALUES`
abbrev pub true_values : List String
true_values = "1" ∷ "true" ∷ "yes" ∷ "on" ∷ []

abbrev pub false_values : List String
false_values = "0" ∷ "false" ∷ "no" ∷ "off" ∷ []

-- `DEFAULT_VALIDATION_TIMEOUT_MS`
abbrev pub default_validation_timeout_ms : ℕ
default_validation_timeout_ms = 100

-- `os.getenv(name, default)`
abbrev pub getenv_or : Environment → String → String → String
getenv_or env name default = elim (env name) [ none ↦ default | some raw ↦ raw ]

abbrev checked : {A : Type 0} → Option A → Checked A
checked none = misconfigured
checked (some a) = fine a

module _ {F : Type 0} (py : Python F) where
  abbrev is_blank : String → Bool
  is_blank s = nat_beq (count (py.strip s)) 0

  -- the parse of `_env_bool`
  unfoldable pub parse_bool : String → Checked Bool
  parse_bool raw =
      if contains (py.lower (py.strip raw)) false_values
      then fine false
      else if contains (py.lower (py.strip raw)) true_values
      then fine true
      else misconfigured

  -- `_env_bool`
  unfoldable pub env_bool : Environment → String → Bool → Checked Bool
  unfolding parse_bool
  env_bool env name default = elim (env name) [ none ↦ fine default | some raw ↦ parse_bool raw ]

  -- `_env_optional_path`
  unfoldable pub env_optional_path : Environment → String → Checked (Option String)
  env_optional_path env name = elim (env name) [
    | none ↦ fine none
    | some raw ↦ if is_blank raw then misconfigured else fine (some raw)
  ]

  -- `_env_optional_int`
  unfoldable pub env_optional_int : Environment → String → Checked Cap
  env_optional_int env name = elim (env name) [
    | none ↦ fine unset
    | some raw ↦
        if is_blank raw
        then misconfigured
        else elim (py.int raw) [ none ↦ misconfigured | some n ↦ fine (milliseconds n) ]
  ]

  -- `_env_int` and `_env_float`
  unfoldable pub env_int : Environment → String → ℤ → Checked ℤ
  env_int env name default = elim (env name) [
    | none ↦ fine default
    | some raw ↦ checked (py.int raw)
  ]

  unfoldable pub env_float : Environment → String → F → Checked F
  env_float env name default = elim (env name) [
    | none ↦ fine default
    | some raw ↦ checked (py.float raw)
  ]

  abbrev stripped_parts : List String → List String
  stripped_parts [] = []
  stripped_parts (part ∷ parts) =
      let rest = stripped_parts parts in if is_blank part then rest else py.strip part ∷ rest

  -- `_env_frozenset`, as a list
  unfoldable pub env_frozenset : Environment → String → Option (List String)
  env_frozenset env name = elim (env name) [
    | none ↦ none
    | some raw ↦ some (stripped_parts (py.split_commas raw))
  ]

  env_enum : {A : Type 0} → List (String × A) → Environment → String → String → Checked A
  unfolding by_value
  env_enum members env name default =
      by_value members (py.lower (py.strip (getenv_or env name default)))

  -- `deployment_mode_from_env`
  unfoldable pub deployment_mode_from_env : Environment → Checked DeploymentMode
  unfolding env_enum
  deployment_mode_from_env env =
      env_enum deployment_modes env "CONGINE_DEPLOYMENT_MODE" "single_tenant"

  -- `base_url_from_env`
  unfoldable pub base_url_from_env : Environment → Checked String
  base_url_from_env env =
      if absent (env "CONGINE_BASE_URL")
      then if absent (env "CONGINE_REGION") then fine "http://localhost:8080" else misconfigured
      else fine (getenv_or env "CONGINE_BASE_URL" "")

  -- the fields of `from_env` that no method of the class reads
  unfoldable pub tuning_from_env : (String → F) → Environment → Checked (Tuning F)
  unfolding env_bool env_int env_float env_optional_path
  tuning_from_env literal env = do
    cache_capacity ← env_int env "CONGINE_CACHE_CAPACITY" (pos 500)
    cache_ttl_seconds ← env_int env "CONGINE_CACHE_TTL" (pos 300)
    sync_enabled ← env_bool env "CONGINE_SYNC_ENABLED" false
    sync_interval_seconds ← env_int env "CONGINE_SYNC_INTERVAL" (pos 300)
    semantic_validation_enabled ← env_bool env "CONGINE_SEMANTIC_VALIDATION" false
    semantic_max_breaches ← env_int env "CONGINE_SEMANTIC_MAX_BREACHES" (pos 100)
    semantic_format_checking ← env_bool env "CONGINE_SEMANTIC_FORMAT_CHECKING" false
    drift_threshold ← env_float env "CONGINE_DRIFT_THRESHOLD" (literal "0.1")
    drift_sample_limit ← env_int env "CONGINE_DRIFT_SAMPLE_LIMIT" (pos 500)
    validation_max_workers ← env_int env "CONGINE_VALIDATION_WORKERS" (pos 10)
    validation_max_pending ← env_int env "CONGINE_VALIDATION_PENDING" (pos 10)
    contracts_dir ← env_optional_path env "CONGINE_CONTRACTS_DIR"
    local_contracts_dir ← env_optional_path env "CONGINE_LOCAL_CONTRACTS_DIR"
    cache_sweep_interval_seconds ←
        env_float env "CONGINE_CACHE_SWEEP_INTERVAL_SECONDS" (literal "30.0")
    control_plane_http_timeout_seconds ←
        env_float env "CONGINE_CONTROL_PLANE_HTTP_TIMEOUT" (literal "10.0")
    telemetry_enabled ← env_bool env "CONGINE_TELEMETRY_ENABLED" true
    telemetry_queue_size ← env_int env "CONGINE_TELEMETRY_QUEUE_SIZE" (pos 10000)
    telemetry_batch_size ← env_int env "CONGINE_TELEMETRY_BATCH_SIZE" (pos 100)
    telemetry_max_retries ← env_int env "CONGINE_TELEMETRY_MAX_RETRIES" (pos 4)
    telemetry_backoff_base ← env_float env "CONGINE_TELEMETRY_BACKOFF_BASE" (literal "0.5")
    telemetry_backoff_max ← env_float env "CONGINE_TELEMETRY_BACKOFF_MAX" (literal "8.0")
    snapshot_lock_timeout_seconds ← env_float env "CONGINE_SNAPSHOT_LOCK_TIMEOUT" (literal "10.0")
    breaker_failure_threshold ← env_int env "CONGINE_BREAKER_FAILURE_THRESHOLD" (pos 5)
    breaker_cooldown_seconds ← env_float env "CONGINE_BREAKER_COOLDOWN_SECONDS" (literal "30.0")
    max_payload_bytes ← env_int env "CONGINE_MAX_PAYLOAD_BYTES" (pos 1048576)
    max_schema_bytes ← env_int env "CONGINE_MAX_SCHEMA_BYTES" (pos 1048576)
    max_contract_files ← env_int env "CONGINE_MAX_CONTRACT_FILES" (pos 1000)
    max_contract_file_bytes ← env_int env "CONGINE_MAX_CONTRACT_FILE_BYTES" (pos 1048576)
    max_stream_buffer_chars ← env_int env "CONGINE_MAX_STREAM_BUFFER_CHARS" (pos 500000)
    max_http_response_bytes ← env_int env "CONGINE_MAX_HTTP_RESPONSE_BYTES" (pos 10485760)
    start_background_services ← env_bool env "CONGINE_START_BACKGROUND_SERVICES" true
    fine (record {
      cache_capacity = cache_capacity;
      cache_ttl_seconds = cache_ttl_seconds;
      sync_enabled = sync_enabled;
      sync_interval_seconds = sync_interval_seconds;
      semantic_validation_enabled = semantic_validation_enabled;
      semantic_max_breaches = semantic_max_breaches;
      semantic_format_checking = semantic_format_checking;
      drift_threshold = drift_threshold;
      drift_sample_limit = drift_sample_limit;
      validation_max_workers = validation_max_workers;
      validation_max_pending = validation_max_pending;
      contracts_dir = contracts_dir;
      local_contracts_dir = local_contracts_dir;
      cache_sweep_interval_seconds = cache_sweep_interval_seconds;
      control_plane_http_timeout_seconds = control_plane_http_timeout_seconds;
      telemetry_enabled = telemetry_enabled;
      telemetry_queue_size = telemetry_queue_size;
      telemetry_batch_size = telemetry_batch_size;
      telemetry_max_retries = telemetry_max_retries;
      telemetry_backoff_base = telemetry_backoff_base;
      telemetry_backoff_max = telemetry_backoff_max;
      snapshot_lock_timeout_seconds = snapshot_lock_timeout_seconds;
      breaker_failure_threshold = breaker_failure_threshold;
      breaker_cooldown_seconds = breaker_cooldown_seconds;
      max_payload_bytes = max_payload_bytes;
      max_schema_bytes = max_schema_bytes;
      max_contract_files = max_contract_files;
      max_contract_file_bytes = max_contract_file_bytes;
      max_stream_buffer_chars = max_stream_buffer_chars;
      max_http_response_bytes = max_http_response_bytes;
      start_background_services = start_background_services;
      jsonschema_draft = getenv_or env "CONGINE_JSONSCHEMA_DRAFT" "draft202012";
      snapshot_dir = env "CONGINE_SNAPSHOT_DIR";
      log_level = py.upper (getenv_or env "CONGINE_LOG_LEVEL" "INFO");
    })

  -- `from_env`
  unfoldable pub from_env : (String → F) → Environment → Checked (Config F)
  unfolding env_enum deployment_mode_from_env base_url_from_env tuning_from_env construct
  from_env literal env = do
    region ← env_enum regions env "CONGINE_REGION" "us"
    fail_mode ← env_enum fail_modes env "CONGINE_FAIL_MODE" "degrade"
    contract_source ← env_enum contract_sources env "CONGINE_CONTRACT_SOURCE" "http"
    contract_admission ← env_enum admission_modes env "CONGINE_CONTRACT_ADMISSION" "strict"
    deployment_mode ← deployment_mode_from_env env
    base_url ← base_url_from_env env
    validation_timeout_ms ← env_int env "CONGINE_TIMEOUT_MS" (pos default_validation_timeout_ms)
    native_cap ← env_optional_int env "CONGINE_NATIVE_TIMEOUT_MS"
    semantic_cap ← env_optional_int env "CONGINE_SEMANTIC_TIMEOUT_MS"
    require_https ← env_bool env "CONGINE_REQUIRE_HTTPS" true
    allow_cleartext ← env_bool env "CONGINE_ALLOW_CLEARTEXT" false
    log_redaction_enabled ← env_bool env "CONGINE_LOG_REDACTION" true
    tuning ← tuning_from_env literal env
    construct py (record {
      base_url = base_url;
      api_key = env "CONGINE_API_KEY";
      project_id = env "CONGINE_PROJECT_ID";
      tenant_id = env "CONGINE_TENANT_ID";
      region = member region;
      validation_timeout_ms = validation_timeout_ms;
      native_validation_timeout_ms = native_cap;
      semantic_validation_timeout_ms = semantic_cap;
      fail_mode = member fail_mode;
      contract_source = member contract_source;
      deployment_mode = member deployment_mode;
      contract_admission = member contract_admission;
      require_https = require_https;
      allow_cleartext = allow_cleartext;
      log_safe_fields = env_frozenset env "CONGINE_LOG_SAFE_FIELDS";
      log_redaction_enabled = log_redaction_enabled;
      tuning = tuning;
    })
