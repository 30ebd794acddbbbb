-- ===== src/Container/Bootstrap.antt =====
-- `bootstrap` of libs/congine-sdk/src/congine_core/adapters/dependency_injection.py: a container with
-- its sync workflow (Sync) and its sync worker (BackgroundSync). Whether a thread can be started, and
-- whether the caller runs inside an event loop, are parameters.
use congine.BackgroundSync.{Worker, is_alive, enter_loop, start, is_running}
use congine.Container.{Container, ensure_open}
use congine.Json.{ℤ, Floats, Re2, Result, ok, raise}
use congine.Prelude.{
  ℕ, String, ◌≡◌, refl, sym, ap, subst, ◌∙◌, Bool, true, false, Option, none, some, if◌then◌else◌,
  Bool-cases, inl, inr, arith,
}
use congine.Sync.{Ports, Settings, World, sync_once_single_flight}

pub record System (F S : Type 0) : Type 0 where
  pub container : Container
  pub world : World F S
  pub sync_worker : Option Worker

-- How `bootstrap` ends: by the RuntimeError of its own check, or by a result.
pub data Boot : Type 0 where
  inside_loop : Boot
  ends : Result ℕ → Boot

abbrev with_worker :
    {F S : Type 0} → System F S → Result (Unit {0}) × Worker → Result (Unit {0}) × System F S
with_worker y (r, w) = (r, record y { sync_worker = some w })

abbrev start_worker :
    {F S : Type 0} → Bool → System F S → Option Worker → Result (Unit {0}) × System F S
start_worker startable y none = (ok tt, y)
start_worker startable y (some w) = with_worker y (start startable w)

-- `start_background_sync`
unfoldable pub start_background_sync :
    {F S : Type 0} → Bool → System F S → Result (Unit {0}) × System F S
unfolding ensure_open start
start_background_sync startable y = elim (ensure_open y.container) [
  | raise e ↦ (raise e, y)
  | ok _ ↦ start_worker startable y y.sync_worker
]

-- the result of `bootstrap` after that of `start_background_sync`
abbrev loaded_after : {A : Type 0} → ℕ → Result (Unit {0}) × A → Boot × A
loaded_after loaded (raise e, y) = (ends (raise e), y)
loaded_after loaded (ok _, y) = (ends (ok loaded), y)

module _ {F S : Type 0} (fl : Floats F) (re : Re2) (parse_int : String → Option ℤ) (s : Settings)
    (ports : Ports F S) where
  -- the end of `bootstrap`, after the sync pass
  abbrev after_sync :
      (sync_enabled startable : Bool) → System F S → Result ℕ × World F S → Boot × System F S
  after_sync sync_enabled startable y (raise e, w) = (ends (raise e), record y { world = w })
  after_sync false startable y (ok loaded, w) = (ends (ok loaded), record y { world = w })
  after_sync true startable y (ok loaded, w) =
      loaded_after loaded (start_background_sync startable (record y { world = w }))

  -- `bootstrap`
  unfoldable pub bootstrap :
      (in_loop sync_enabled startable : Bool) → System F S → Boot × System F S
  unfolding start_background_sync
  bootstrap in_loop sync_enabled startable y = elim (ensure_open y.container) [
    | raise e ↦ (ends (raise e), y)
    | ok _ ↦
        if in_loop
        then (inside_loop, y)
        else after_sync sync_enabled startable y
            (sync_once_single_flight fl re parse_int s ports y.world)
  ]

start-running :
    (startable : Bool) (w : Worker)
    → (start startable w).0 ≡ ok tt
    → is_running (start startable w).1 ≡ true
unfolding start is_running enter_loop
start-running startable w h = elim (Bool-cases w.closed) [
  | inl c ↦ ground (arith, h, c)
  | inr c ↦ elim (Bool-cases (is_alive w.thread)) [
    | inl alive ↦ rw (c, alive) alive
    | inr dead ↦ elim (Bool-cases startable) [
      | inl can ↦ rw (c, dead, can) refl
      | inr cannot ↦ ground (arith, h, c, dead, cannot)
    ]
  ]
]

-- what a bootstrap that returns makes of the worker
abbrev pub worker_runs : Option Worker → Bool
worker_runs none = false
worker_runs (some w) = is_running w

abbrev pub Synced : Bool → Option Worker → Option Worker → Type 0
Synced false before now = now ≡ before
Synced true none now = now ≡ none
Synced true (some w) now = worker_runs now ≡ true

same_result : {loaded n : ℕ} → ends (ok loaded) ≡ ends (ok n) → loaded ≡ n
same_result h = ground (arith, h)

module _ {F S : Type 0} where
  -- a system after a pass with this answer
  abbrev pub Loaded : Bool → ℕ → Option Worker → Result ℕ × World F S → System F S → Type 0
  Loaded enabled n before (r, w) now =
      (r ≡ ok n) × ((now.world ≡ w) × Synced enabled before now.sync_worker)

  open_start :
      (startable : Bool) (y : System F S)
      → y.container.closed ≡ false
      → start_background_sync startable y ≡ start_worker startable y y.sync_worker
  unfolding start_background_sync ensure_open
  open_start startable y c = rw (c) refl

  started-Loaded :
      (startable : Bool) (y : System F S) (w : World F S) (loaded n : ℕ) (worker : Option Worker)
      → y.world ≡ w
      → y.sync_worker ≡ worker
      → (loaded_after loaded (start_worker startable y worker)).0 ≡ ends (ok n)
      → Loaded true n worker
          (ok loaded, w)
          (loaded_after loaded (start_worker startable y worker)).1
  started-Loaded startable y w loaded n none world same h = (ap ok (same_result h), (world, same))
  started-Loaded startable y w loaded n (some worker) world same h =
      go (start startable worker) refl h
    where
      go :
          (p : Result (Unit {0}) × Worker)
          → start startable worker ≡ p
          → (loaded_after loaded (with_worker y p)).0 ≡ ends (ok n)
          → Loaded true n (some worker) (ok loaded, w) (loaded_after loaded (with_worker y p)).1
      go (raise e, now) o h = ground (arith, h)
      go (ok tt, now) o h = (
        ap ok (same_result h),
        (
          world,
          sym (ap (λ p. is_running p.1) o) ∙ start-running startable worker (ap (λ p. p.0) o),
        ),
      )

module _ {F S : Type 0} (fl : Floats F) (re : Re2) (parse_int : String → Option ℤ) (s : Settings)
    (ports : Ports F S) where
  after_sync-Loaded :
      (enabled startable : Bool) (y : System F S) (n : ℕ) (p : Result ℕ × World F S)
      → y.container.closed ≡ false
      → (after_sync fl re parse_int s ports enabled startable y p).0 ≡ ends (ok n)
      → Loaded enabled n y.sync_worker p
          (after_sync fl re parse_int s ports enabled startable y p).1
  after_sync-Loaded enabled startable y n (raise e, w) c h = ground (arith, h)
  after_sync-Loaded false startable y n (ok loaded, w) c h = (ap ok (same_result h), (refl, refl))
  after_sync-Loaded true startable y n (ok loaded, w) c h =
      let opened : start_background_sync startable (record y { world = w })
          ≡ start_worker startable (record y { world = w }) y.sync_worker =
        open_start startable (record y { world = w }) c in
      subst (λ p. Loaded true n y.sync_worker (ok loaded, w) (loaded_after loaded p).1) (sym opened)
        (started-Loaded startable (record y { world = w }) w loaded n y.sync_worker refl refl
          (ap (λ p. (loaded_after loaded p).0) (sym opened) ∙ h))

  open_bootstrap :
      (enabled startable : Bool) (y : System F S)
      → y.container.closed ≡ false
      → bootstrap fl re parse_int s ports false enabled startable y
        ≡ after_sync fl re parse_int s ports enabled startable y
            (sync_once_single_flight fl re parse_int s ports y.world)
  unfolding bootstrap ensure_open
  open_bootstrap enabled startable y c = rw (c) refl

  -- When `bootstrap` returns a count, the container is open and the caller runs in no event loop; the
  -- count is that of the sync pass, and what the pass leaves is kept; and where the sync is enabled and
  -- there is a worker, its thread runs, and otherwise the worker is as it was.
  pub bootstrap-Loaded :
      (in_loop enabled startable : Bool) (y : System F S) (n : ℕ)
      → (bootstrap fl re parse_int s ports in_loop enabled startable y).0 ≡ ends (ok n)
      → (y.container.closed ≡ false)
        × ((in_loop ≡ false)
            × Loaded enabled n y.sync_worker
                (sync_once_single_flight fl re parse_int s ports y.world)
                (bootstrap fl re parse_int s ports in_loop enabled startable y).1)
  unfolding bootstrap ensure_open
  bootstrap-Loaded true enabled startable y n h = elim (Bool-cases y.container.closed) [
    | inl c ↦ ground (arith, h, c)
    | inr c ↦ ground (arith, h, c)
  ]
  bootstrap-Loaded false enabled startable y n h = elim (Bool-cases y.container.closed) [
    | inl c ↦ ground (arith, h, c)
    | inr c ↦
        let opened = open_bootstrap enabled startable y c in
        let answer = sync_once_single_flight fl re parse_int s ports y.world in
        (
          c,
          (
            refl,
            subst (λ p. Loaded enabled n y.sync_worker answer p.1) (sym opened)
                (after_sync-Loaded enabled startable y n answer c (ap (λ p. p.0) (sym opened) ∙ h)),
          ),
        )
  ]
