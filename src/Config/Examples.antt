-- ===== src/Config/Examples.antt =====
-- A configuration for a remote control plane, given in part by texts.
use congine.Admission.{Mode}
use congine.Config.{
  fine, misconfigured, member, wire, unset, milliseconds, Given, Config, Tuning, Python, eu,
  single_tenant, http, by_value, absent, check_cap, normalize, is_local_base_url,
  validate_stage_budgets, validate, construct,
}
use congine.Config.Env.{parse_bool}
use congine.Config.Sound.{Within, Normalized, Secure, construct-Sound}
use congine.Json.{pos}
use congine.Json.Text.{starts_with}
use congine.Prelude.{ℕ, ◌≡◌, ◌⊎◌, refl, true, false, none, some, [], ◌∷◌, contains}
use congine.UseCase.{strict}

abbrev py : Python ℕ
py = record {
  strip = λ s. s;
  lower = λ s. s;
  upper = λ s. s;
  split_commas = λ s. s ∷ [];
  hostname = λ url. fine (some "control.example");
  int = λ s. none;
  float = λ s. none;
}

abbrev tuning : Tuning ℕ
tuning = record {
  cache_capacity = pos 1;
  cache_ttl_seconds = pos 1;
  sync_enabled = false;
  sync_interval_seconds = pos 1;
  semantic_validation_enabled = false;
  semantic_max_breaches = pos 1;
  semantic_format_checking = false;
  drift_threshold = 0;
  drift_sample_limit = pos 1;
  validation_max_workers = pos 1;
  validation_max_pending = pos 1;
  contracts_dir = none;
  local_contracts_dir = none;
  cache_sweep_interval_seconds = 0;
  control_plane_http_timeout_seconds = 0;
  telemetry_enabled = false;
  telemetry_queue_size = pos 1;
  telemetry_batch_size = pos 1;
  telemetry_max_retries = pos 1;
  telemetry_backoff_base = 0;
  telemetry_backoff_max = 0;
  snapshot_lock_timeout_seconds = 0;
  breaker_failure_threshold = pos 1;
  breaker_cooldown_seconds = 0;
  max_payload_bytes = pos 1;
  max_schema_bytes = pos 1;
  max_contract_files = pos 1;
  max_contract_file_bytes = pos 1;
  max_stream_buffer_chars = pos 1;
  max_http_response_bytes = pos 1;
  start_background_services = false;
  jsonschema_draft = "draft7";
  snapshot_dir = none;
  log_level = "INFO";
}

abbrev given : Given ℕ
given = record {
  base_url = "https://control.example";
  api_key = some "k";
  project_id = some "p";
  tenant_id = some "t";
  region = wire "eu";
  validation_timeout_ms = pos 100;
  native_validation_timeout_ms = milliseconds (pos 40);
  semantic_validation_timeout_ms = unset;
  fail_mode = wire "strict";
  contract_source = member http;
  deployment_mode = member single_tenant;
  contract_admission = member Mode.strict;
  require_https = true;
  allow_cleartext = false;
  log_safe_fields = none;
  log_redaction_enabled = true;
  tuning = tuning;
}

abbrev config : Config ℕ
config = record {
  given = given;
  region = eu;
  fail_mode = strict;
  contract_source = http;
  deployment_mode = single_tenant;
  contract_admission = Mode.strict;
}

config_code : Unit {0}
unfolding construct normalize by_value validate_stage_budgets check_cap validate is_local_base_url
    contains starts_with parse_bool
config_code = tt

refuses_wide_cap :
    construct py (record given { native_validation_timeout_ms = milliseconds (pos 101) })
    ≡ misconfigured
unfolding config_code
refuses_wide_cap = refl

refuses_typo : parse_bool py "TRUE!" ≡ misconfigured
unfolding config_code
refuses_typo = refl

construct-Sound_example :
    (config.given ≡ given)
    × Normalized py given config
    × (Within (pos 100) (milliseconds (pos 40)) × Within (pos 100) unset)
    × ((is_local_base_url py "https://control.example" ≡ fine true)
        ⊎ ((absent (some "k") ≡ false)
            × (absent (some "p") ≡ false)
            × (absent (some "t") ≡ false)
            × Secure py given))
unfolding config_code
construct-Sound_example = construct-Sound py given refl
