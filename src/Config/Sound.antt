-- ===== src/Config/Sound.antt =====
-- What holds of every configuration that could be constructed.
use congine.Config.{
  Checked, fine, misconfigured, bad_url, ◌>>=◌, Raw, member, wire, alien, Cap, unset, milliseconds,
  no_integer, Given, Config, Python, by_value, regions, fail_modes, deployment_modes,
  contract_sources, admission_modes, absent, require, check_cap, normalize, is_local_base_url,
  validate_stage_budgets, incomplete, cleartext_refused, validate, construct, normalized, Region,
  ContractSource, DeploymentMode,
}
use congine.Admission.{Mode}
use congine.UseCase.{FailMode}
use congine.Json.{ℤ, pos}
use congine.Json.Builtins.{lt_ℤ}
use congine.Json.Text.{starts_with}
use congine.Prelude.{
  String, ◌≡◌, refl, sym, ap, ◌∙◌, subst, ◌⊎◌, inl, inr, Bool, true, false, not, ◌&&◌, List, [],
  ◌∷◌, ◌==◌, string_eq, arith, Bool-cases, if◌then◌else◌,
}

-- A cap that a stage can be given: positive, and no more than the whole validation.
abbrev pub Within : ℤ → Cap → Type 0
Within timeout unset = Unit {0}
Within timeout (milliseconds value) = (lt_ℤ (pos 0) value ≡ true) × (lt_ℤ timeout value ≡ false)
Within timeout no_integer = ⊥

pub data Named {A : Type 0} (s : String) (a : A) : List (String × A) → Type 0 where
  here : {rest : List (String × A)} → Named s a ((s, a) ∷ rest)
  there : {x : String × A} {rest : List (String × A)} → Named s a rest → Named s a (x ∷ rest)

abbrev pub Secure : {F : Type 0} → Python F → Given F → Type 0
Secure py g =
    (starts_with (py.lower g.base_url) "https://" ≡ true)
    ⊎ ((g.require_https ≡ false) ⊎ (g.allow_cleartext ≡ true))

bind_fine :
    {A B : Type 0} (x : Checked A) (f : A → Checked B) {b : B}
    → (x >>= f) ≡ fine b
    → (a : A) × (x ≡ fine a) × (f a ≡ fine b)
bind_fine (fine a) f h = (a, refl, h)
bind_fine misconfigured f h = absurd (ground (arith, h))
bind_fine bad_url f h = absurd (ground (arith, h))

fine_inj : {A : Type 0} {a b : A} → Path (Checked A) (fine a) (fine b) → a ≡ b
fine_inj h = ground (arith, h)

check_cap-Within : (timeout : ℤ) (cap : Cap) → check_cap timeout cap ≡ fine tt → Within timeout cap
unfolding check_cap
check_cap-Within timeout unset h = tt
check_cap-Within timeout (milliseconds value) h = (ground (arith, h), ground (arith, h))
check_cap-Within timeout no_integer h = absurd (ground (arith, h))

by_value-Named :
    {A : Type 0} (members : List (String × A)) (s : String) {a : A}
    → by_value members s ≡ fine a
    → Named s a members
unfolding by_value
by_value-Named [] s h = absurd (ground (arith, h))
by_value-Named ((value, b) ∷ members) s {a} h = elim (Bool-cases (value == s)) [
  | inl same ↦
      let named : value ≡ s = (string_eq.beq_iff value s).0 same in
      let meant : b ≡ a = ground (arith, h, same) in
      subst (λ v. Named s a ((v, b) ∷ members)) (sym named)
        (subst (λ x. Named s a ((s, x) ∷ members)) (sym meant) here)
  | inr other ↦ there (by_value-Named members s (ground (arith, h, other)))
]

remote_checks :
    (local i c : Bool)
    → (if local then fine tt else if i then misconfigured else require (not c)) ≡ fine tt
    → local ≡ false
    → (i ≡ false) × (c ≡ false)
remote_checks true i c h remote = absurd (ground (arith, remote))
remote_checks false true c h remote = absurd (ground (arith, h))
remote_checks false false true h remote = absurd (ground (arith, h))
remote_checks false false false h remote = (refl, refl)

secure_cases :
    (required allowed https : Bool)
    → (required && (not allowed && not https)) ≡ false
    → (https ≡ true) ⊎ ((required ≡ false) ⊎ (allowed ≡ true))
secure_cases false allowed https h = inr (inl refl)
secure_cases true true https h = inr (inr refl)
secure_cases true false true h = inl refl
secure_cases true false false h = absurd (ground (arith, h))

normalized-fine :
    {F : Type 0} (g : Given F) (r : Checked Region) (f : Checked FailMode)
    (s : Checked ContractSource) (d : Checked DeploymentMode) (m : Checked Mode) {c : Config F}
    → normalized g r f s d m ≡ fine c
    → (c.given ≡ g)
      × (r ≡ fine c.region)
      × (f ≡ fine c.fail_mode)
      × (s ≡ fine c.contract_source)
      × (d ≡ fine c.deployment_mode)
      × (m ≡ fine c.contract_admission)
normalized-fine g misconfigured f' s' d' m' h = absurd (ground (arith, h))
normalized-fine g bad_url f' s' d' m' h = absurd (ground (arith, h))
normalized-fine g (fine r) misconfigured s' d' m' h = absurd (ground (arith, h))
normalized-fine g (fine r) bad_url s' d' m' h = absurd (ground (arith, h))
normalized-fine g (fine r) (fine f) misconfigured d' m' h = absurd (ground (arith, h))
normalized-fine g (fine r) (fine f) bad_url d' m' h = absurd (ground (arith, h))
normalized-fine g (fine r) (fine f) (fine s) misconfigured m' h = absurd (ground (arith, h))
normalized-fine g (fine r) (fine f) (fine s) bad_url m' h = absurd (ground (arith, h))
normalized-fine g (fine r) (fine f) (fine s) (fine d) misconfigured h = absurd (ground (arith, h))
normalized-fine g (fine r) (fine f) (fine s) (fine d) bad_url h = absurd (ground (arith, h))
normalized-fine g (fine r) (fine f) (fine s) (fine d) (fine m) {c} h =
    let same = fine_inj h in
    (
      ap (λ x. x.given) (sym same),
      ap (λ x. fine x.region) same,
      ap (λ x. fine x.fail_mode) same,
      ap (λ x. fine x.contract_source) same,
      ap (λ x. fine x.deployment_mode) same,
      ap (λ x. fine x.contract_admission) same,
    )

module _ {F : Type 0} (py : Python F) where
  -- What a given value means: itself, or the member whose value it is but for blanks and case.
  abbrev pub Means : {A : Type 0} → List (String × A) → Raw A → A → Type 0
  Means members (member b) a = b ≡ a
  Means members (wire s) a = Named (py.lower (py.strip s)) a members
  Means members alien a = ⊥

  normalize-Means :
      {A : Type 0} (members : List (String × A)) (raw : Raw A) {a : A}
      → normalize py members raw ≡ fine a
      → Means members raw a
  unfolding normalize
  normalize-Means members (member b) h = ground (arith, h)
  normalize-Means members (wire s) h = by_value-Named members (py.lower (py.strip s)) h
  normalize-Means members alien h = absurd (ground (arith, h))

  validate-Secure :
      (g : Given F)
      → validate py g ≡ fine tt
      → (is_local_base_url py g.base_url ≡ fine true)
        ⊎ ((absent g.api_key ≡ false)
            × (absent g.project_id ≡ false)
            × (absent g.tenant_id ≡ false)
            × Secure py g)
  unfolding validate
  validate-Secure g h =
      let (local, found, h1) = bind_fine (is_local_base_url py g.base_url) _ h in
      elim (Bool-cases local) [
        | inl here_ ↦ inl (found ∙ ap fine here_)
        | inr remote ↦
            let (complete, secure) =
              remote_checks local (incomplete g) (cleartext_refused py g) h1 remote in
            inr (
              ground (arith, complete),
              ground (arith, complete),
              ground (arith, complete),
              secure_cases g.require_https g.allow_cleartext
                  (starts_with (py.lower g.base_url) "https://") secure,
            )
      ]

  validate_stage_budgets-Within :
      (g : Given F)
      → validate_stage_budgets py g ≡ fine tt
      → Within g.validation_timeout_ms g.native_validation_timeout_ms
        × Within g.validation_timeout_ms g.semantic_validation_timeout_ms
  unfolding validate_stage_budgets
  validate_stage_budgets-Within g h =
      let (t, native, semantic) =
        bind_fine (check_cap g.validation_timeout_ms g.native_validation_timeout_ms) _ h in
      (check_cap-Within _ _ native, check_cap-Within _ _ semantic)

  -- What the enums' fields of a configuration hold.
  abbrev pub Normalized : Given F → Config F → Type 0
  Normalized g c =
      Means regions g.region c.region
      × Means fail_modes g.fail_mode c.fail_mode
      × Means contract_sources g.contract_source c.contract_source
      × Means deployment_modes g.deployment_mode c.deployment_mode
      × Means admission_modes g.contract_admission c.contract_admission

  Normalized-made :
      (g : Given F) {c : Config F}
      → normalized g
          (normalize py regions g.region)
          (normalize py fail_modes g.fail_mode)
          (normalize py contract_sources g.contract_source)
          (normalize py deployment_modes g.deployment_mode)
          (normalize py admission_modes g.contract_admission)
        ≡ fine c
      → (c.given ≡ g) × Normalized g c
  Normalized-made g h =
      let (kept, e1, e2, e3, e4, e5) = normalized-fine g _ _ _ _ _ h in
      (
        kept,
        (
          normalize-Means regions g.region e1,
          normalize-Means fail_modes g.fail_mode e2,
          normalize-Means contract_sources g.contract_source e3,
          normalize-Means deployment_modes g.deployment_mode e4,
          normalize-Means admission_modes g.contract_admission e5,
        ),
      )

  -- Whatever configuration can be constructed, from the environment or directly, is canonical and safe:
  -- it keeps the given fields, each enum's field holds the member that was given or named; each stage's
  -- cap is unset or positive and within the aggregate budget; and a control plane that is not local
  -- has all three credentials, and HTTPS unless that is waived.
  pub construct-Sound :
      (g : Given F) {c : Config F}
      → construct py g ≡ fine c
      → (c.given ≡ g)
        × Normalized g c
        × (Within g.validation_timeout_ms g.native_validation_timeout_ms
            × Within g.validation_timeout_ms g.semantic_validation_timeout_ms)
        × ((is_local_base_url py g.base_url ≡ fine true)
            ⊎ ((absent g.api_key ≡ false)
                × (absent g.project_id ≡ false)
                × (absent g.tenant_id ≡ false)
                × Secure py g))
  unfolding construct
  construct-Sound g {c} h =
      let (c', made, h1) = bind_fine (normalized g _ _ _ _ _) _ h in
      let (t, budgets, h2) = bind_fine (validate_stage_budgets py g) _ h1 in
      let (u, complete, h3) = bind_fine (validate py g) _ h2 in
      let (kept, means) = Normalized-made g (made ∙ h3) in
      (kept, means, validate_stage_budgets-Within g budgets, validate-Secure g complete)
