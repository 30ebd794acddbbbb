-- ===== src/Container/Tenants.antt =====
-- The class state of `ServiceContainer`: the tenant registry, which is a bounded dict in the order of
-- the lookups, and the shared default. Containers are numbered as they are made, and `containers` holds
-- each one. A call under `_tenant_lock` is one step.
use congine.Container.{Container, blank, init, arm_deferred_teardown, enter_close, finish_close}
use congine.Dict.{Dict, get, put, remove, size}
use congine.Prelude.{
  ℕ, suc, String, Bool, Option, none, some, [], ◌∷◌, leb, string_eq, nat_eq, if◌then◌else◌,
}

-- `_MAX_TENANTS`
abbrev pub max_tenants : ℕ
max_tenants = 128

pub record Registry : Type 0 where
  pub tenants : Dict String ℕ
  pub containers : Dict ℕ Container
  pub next : ℕ
  pub evicted_total : ℕ
  pub default_instance : Option ℕ

-- What a call answers: a container, a configuration error, or what the construction raises.
pub data Answer : Type 0 where
  container : ℕ → Answer
  misconfigured failed : Answer

-- the container of that number
unfoldable pub container_of : Dict ℕ Container → ℕ → Container
container_of containers n = elim (get n containers) [ none ↦ blank | some c ↦ c ]

abbrev pub is_closed : Registry → ℕ → Bool
is_closed w n = (container_of w.containers n).closed

-- `cls(config)`: with the number of the new container, whether or not it is built
unfoldable pub make : Bool → Registry → Registry
make built w = record w { containers = put w.next (init built) w.containers; next = suc w.next }

-- `next(iter(cls._tenant_registry))` is popped, and its finalizer armed
unfoldable pub evict_from : Dict String ℕ → Registry → Registry
unfolding container_of
evict_from [] w = w
evict_from ((k, n) ∷ rest) w = record w {
  tenants = rest;
  containers = put n (arm_deferred_teardown (container_of w.containers n)) w.containers;
  evicted_total = suc w.evicted_total;
}

unfoldable pub make_room : Registry → Registry
unfolding evict_from
make_room w = if leb max_tenants (size w.tenants) then evict_from w.tenants w else w

-- the rest of `for_tenant` where no open container is registered: whether the configuration is
-- accepted, and whether the container is built
unfoldable pub register : String → Bool → Bool → Registry → Answer × Registry
unfolding make make_room
register k accepted built w =
    if accepted
    then if built
      then (
        container w.next,
        record (make built (make_room w)) { tenants = put k w.next (make_room w).tenants },
      )
      else (failed, make built (make_room w))
    else (misconfigured, w)

unfoldable pub without_tenant : String → Registry → Registry
without_tenant k w = record w { tenants = remove k w.tenants }

-- the lookup moves the entry to the end
unfoldable pub touch : String → ℕ → Registry → Registry
unfolding without_tenant
touch k n w = record w { tenants = put k n (without_tenant k w).tenants }

-- `for_tenant`, for the key of the tenant and the project
unfoldable pub for_tenant : String → Bool → Bool → Registry → Answer × Registry
unfolding register without_tenant touch
for_tenant k accepted built w = elim (get k w.tenants) [
  | none ↦ register k accepted built w
  | some n ↦
      if is_closed w n
      then register k accepted built (without_tenant k w)
      else (container n, touch k n w)
]

-- `close` of a container, from its first section to its last
abbrev pub closed_one : Container → Container
closed_one c = if c.closed then c else record (finish_close (enter_close c)) { closers = 0 }

unfoldable pub close : ℕ → Registry → Registry
unfolding container_of
close n w = record w { containers = put n (closed_one (container_of w.containers n)) w.containers }

unfoldable pub close_all : Dict String ℕ → Registry → Registry
unfolding close
close_all [] w = w
close_all ((k, n) ∷ rest) w = close_all rest (close n w)

unfoldable pub fresh_default : Bool → Bool → Registry → Answer × Registry
unfolding make
fresh_default accepted built w =
    if accepted
    then if built
      then (container w.next, record (make built w) { default_instance = some w.next })
      else (failed, make built w)
    else (misconfigured, w)

-- `get_default`, by the deployment mode, and whether the configuration is accepted and built
unfoldable pub get_default : Bool → Bool → Bool → Registry → Answer × Registry
unfolding fresh_default
get_default multi_tenant accepted built w =
    if multi_tenant then (misconfigured, w) else elim w.default_instance [
      | some n ↦ if is_closed w n then fresh_default accepted built w else (container n, w)
      | none ↦ fresh_default accepted built w
    ]

abbrev pub cleared_default : Option ℕ → Registry → Registry
cleared_default none w = w
cleared_default (some n) w = close n w

-- `reset_default`
unfoldable pub reset_default : Registry → Registry
unfolding close close_all
reset_default w =
    close_all w.tenants
      (cleared_default w.default_instance (record w { tenants = []; default_instance = none }))
