-- ===== src/Config.antt =====
-- libs/congine-sdk/src/congine_core/config.py: the checks that every configuration passes on its
-- construction. `urlparse`, `str.strip` and `str.lower` are parameters.
mod Fields
pub mod Env
pub mod Sound
mod Examples
pub use Fields.*
use congine.Admission.{Mode}
use congine.Json.{ℤ, pos}
use congine.Json.Builtins.{lt_ℤ}
use congine.Json.Text.{starts_with}
use congine.Prelude.{
  ℕ, String, Bool, true, false, not, ◌&&◌, ◌||◌, Option, none, some, List, [], ◌∷◌, ◌==◌, string_eq,
  nat_beq, count, contains, if◌then◌else◌, is_empty, ◌++◌,
}
use congine.UseCase.{FailMode, degrade, strict, silent}

-- an enum by its value, from the values and the members
unfoldable pub by_value : {A : Type 0} → List (String × A) → String → Checked A
by_value [] s = misconfigured
by_value ((value, a) ∷ members) s = if value == s then fine a else by_value members s

abbrev pub regions : List (String × Region)
regions = ("us", us) ∷ ("eu", eu) ∷ ("apac", apac) ∷ []

abbrev pub fail_modes : List (String × FailMode)
fail_modes = ("strict", strict) ∷ ("degrade", degrade) ∷ ("silent", silent) ∷ []

abbrev pub deployment_modes : List (String × DeploymentMode)
deployment_modes = ("single_tenant", single_tenant) ∷ ("multi_tenant", multi_tenant) ∷ []

abbrev pub contract_sources : List (String × ContractSource)
contract_sources = ("http", http) ∷ ("file", file) ∷ []

abbrev pub admission_modes : List (String × Mode)
admission_modes = ("strict", Mode.strict) ∷ ("warn", Mode.warn) ∷ []

-- `_LOCAL_HOSTS`
abbrev pub local_hosts : List String
local_hosts = "localhost" ∷ "127.0.0.1" ∷ "::1" ∷ "0.0.0.0" ∷ []

-- `if not value`, of an optional text
abbrev pub absent : Option String → Bool
absent none = true
absent (some s) = nat_beq (count s) 0

-- `if not condition: raise CongineConfigurationError`
abbrev pub require : Bool → Checked (Unit {0})
require true = fine tt
require false = misconfigured

-- the body of the loop of `_validate_stage_budgets`
unfoldable pub check_cap : ℤ → Cap → Checked (Unit {0})
check_cap timeout unset = fine tt
check_cap timeout (milliseconds value) =
    if not (lt_ℤ (pos 0) value) then misconfigured else require (not (lt_ℤ timeout value))
check_cap timeout no_integer = misconfigured

-- the configuration after the loop of `__post_init__`, from what becomes of each field
abbrev pub normalized :
    {F : Type 0}
    → Given F
    → Checked Region
    → Checked FailMode
    → Checked ContractSource
    → Checked DeploymentMode
    → Checked Mode
    → Checked (Config F)
normalized g (fine region) (fine fail_mode) (fine source) (fine deployment) (fine admission) =
    fine (record {
      given = g;
      region = region;
      fail_mode = fail_mode;
      contract_source = source;
      deployment_mode = deployment;
      contract_admission = admission;
    })
normalized g _ _ _ _ _ = misconfigured

abbrev pub incomplete : {F : Type 0} → Given F → Bool
incomplete g = absent g.api_key || (absent g.project_id || absent g.tenant_id)

module _ {F : Type 0} (py : Python F) where
  -- the normalization of a field in `__post_init__`
  unfoldable pub normalize : {A : Type 0} → List (String × A) → Raw A → Checked A
  unfolding by_value
  normalize members (member a) = fine a
  normalize members (wire s) = by_value members (py.lower (py.strip s))
  normalize members alien = misconfigured

  abbrev local_host : Option String → Bool
  local_host none = false
  local_host (some host) =
      if nat_beq (count (py.lower host)) 0 then false else contains (py.lower host) local_hosts

  -- `is_local_base_url`
  unfoldable pub is_local_base_url : String → Checked Bool
  is_local_base_url base_url = do host ← py.hostname base_url; fine (local_host host)

  -- `_validate_stage_budgets`
  unfoldable pub validate_stage_budgets : Given F → Checked (Unit {0})
  unfolding check_cap
  validate_stage_budgets g = do
    native ← check_cap g.validation_timeout_ms g.native_validation_timeout_ms
    check_cap g.validation_timeout_ms g.semantic_validation_timeout_ms

  abbrev pub cleartext_refused : Given F → Bool
  cleartext_refused g =
      g.require_https
      && (not g.allow_cleartext && not (starts_with (py.lower g.base_url) "https://"))

  -- `validate`
  unfoldable pub validate : Given F → Checked (Unit {0})
  unfolding is_local_base_url
  validate g = do
    local ← is_local_base_url g.base_url
    if local
        then fine tt
        else if incomplete g
        then misconfigured
        else require (not (cleartext_refused g))

  -- `__post_init__`
  unfoldable pub construct : Given F → Checked (Config F)
  unfolding normalize validate_stage_budgets validate
  construct g = do
    c ←
        normalized g (normalize regions g.region) (normalize fail_modes g.fail_mode)
          (normalize contract_sources g.contract_source)
          (normalize deployment_modes g.deployment_mode)
          (normalize admission_modes g.contract_admission)
    budgets ← validate_stage_budgets g
    complete ← validate g
    fine c

  -- `effective_log_safe_fields`
  unfoldable pub effective_log_safe_fields : Given F → Checked (Option (List String))
  unfolding is_local_base_url
  effective_log_safe_fields g = elim g.log_safe_fields [
    | some names ↦ fine (some names)
    | none ↦ if not g.log_redaction_enabled then fine none else do
      local ← is_local_base_url g.base_url
      fine (
          if local
          then none
          else some (
              "contract_id" ∷ "contract_version" ∷ "status" ∷ "duration_ms" ∷ "rule" ∷ "field"
              ∷ "error_type" ∷ "breaches" ∷ "count" ∷ "attempt" ∷ "timeout_ms" ∷ "degraded" ∷ []))
  ]
