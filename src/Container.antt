-- ===== src/Container.antt =====
-- `ServiceContainer` of libs/congine-sdk/src/congine_core/adapters/dependency_injection.py: its life,
-- from construction to teardown. Each section under `_close_lock` is one step; what the components do
-- in their own `stop` is outside. A container is collected once nothing refers to it, and a thread
-- inside `close` does.
pub mod Teardown
pub mod Tenants
pub mod Registry
pub mod Lookups
pub mod Bootstrap
mod Booted
mod Examples
use congine.Json.{Result, ok, raise, lifecycle_error}
use congine.Prelude.{ℕ, suc, ◌≡◌, Bool, true, false, ◌||◌, List, [], ◌∷◌, ◌++◌, if◌then◌else◌}

pub record Container : Type 0 where
  pub closed : Bool
  pub close_complete : Bool
  -- whether `_finalizer` is set
  pub finalizer : Bool
  -- whether the finalizer is still to run: it was neither run nor detached
  pub armed : Bool
  -- whether the finalizer ran at interpreter exit
  pub ran_at_exit : Bool
  -- threads that entered `close` first and have not torn down yet
  pub closers : ℕ
  -- the calls of `_teardown_components`, each with its `drain`
  pub teardowns : List Bool
  -- whether anything refers to the container
  pub alive : Bool

-- the fields as `__init__` sets them first
abbrev pub blank : Container
blank = record {
  closed = false;
  close_complete = false;
  finalizer = false;
  armed = false;
  ran_at_exit = false;
  closers = 0;
  teardowns = [];
  alive = true;
}

-- `_arm_deferred_teardown`
unfoldable pub arm_deferred_teardown : Container → Container
arm_deferred_teardown c =
    if c.closed || c.finalizer then c else record c { finalizer = true; armed = true }

-- `__init__`, by whether `_initialize_components` returns: it arms the finalizer last; if it raises,
-- what was built is rolled back, and nothing refers to the container
unfoldable pub init : Bool → Container
unfolding arm_deferred_teardown
init true = arm_deferred_teardown blank
init false = record blank {
  closed = true;
  close_complete = true;
  teardowns = false ∷ [];
  alive = false;
}

-- `ensure_open`
unfoldable pub ensure_open : Container → Result (Unit {0})
ensure_open c = if c.closed then raise lifecycle_error else ok tt

-- the locked section of `close`; a later call waits for the first one, or returns
unfoldable pub enter_close : Container → Container
enter_close c =
    if c.closed then c else record c { closed = true; finalizer = false; closers = suc c.closers }

-- the rest of the first call, which detaches the finalizer whether it has run or not
unfoldable pub finish_close : Container → Container
finish_close c =
    if c.close_complete
    then c
    else record c { armed = false; teardowns = c.teardowns ++ true ∷ []; close_complete = true }

-- the finalizer, which `weakref` runs when the container is collected, if it is armed
unfoldable pub collect : Container → Container
collect c =
    if c.armed
    then record c { teardowns = c.teardowns ++ false ∷ []; armed = false; alive = false }
    else record c { alive = false }

-- the finalizer at interpreter exit (`weakref.finalize` runs there by default), if it is armed
unfoldable pub run_at_exit : Container → Container
run_at_exit c =
    if c.armed
    then record c { teardowns = c.teardowns ++ false ∷ []; armed = false; ran_at_exit = true }
    else c

pub data Step : Container → Container → Type 0 where
  arms : (c : Container) → c.alive ≡ true → Step c (arm_deferred_teardown c)
  enters : (c : Container) → c.alive ≡ true → Step c (enter_close c)
  finishes :
      (c : Container) (n : ℕ)
      → c.alive ≡ true
      → c.closers ≡ suc n
      → Step c (record (finish_close c) { closers = n })
  collected : (c : Container) → c.alive ≡ true → c.closers ≡ 0 → Step c (collect c)
  exits : (c : Container) → c.alive ≡ true → Step c (run_at_exit c)

-- what can become of a container that was made
pub data Reachable : Container → Type 0 where
  made : (built : Bool) → Reachable (init built)
  then_step : {c d : Container} → Reachable c → Step c d → Reachable d
