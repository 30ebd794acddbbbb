-- ===== src/Container/Examples.antt =====
-- A container that is closed, and a tenant that is looked up again after its container was closed.
use congine.Container.{
  Container, blank, init, arm_deferred_teardown, enter_close, finish_close, collect, run_at_exit,
  enters, exits, finishes, collected, Reachable, made, then_step,
}
use congine.Container.Lookups.{
  Call, looks_up, closes, after_calls, empty_registry, for_tenant-serves,
}
use congine.Container.Registry.{Registered}
use congine.Container.Teardown.{expected, teardown-count}
use congine.Container.Tenants.{
  max_tenants, container, container_of, is_closed, make, evict_from, make_room, register,
  without_tenant, touch, for_tenant, close,
}
use congine.Dict.{get, put, remove, size}
use congine.Prelude.{◌≤◌, ◌≡◌, refl, true, false, List, [], ◌∷◌, length, nat_eq, string_eq}

abbrev serving : Container
serving = record blank { finalizer = true; armed = true }

abbrev exited : Container
exited = record serving { armed = false; ran_at_exit = true; teardowns = false ∷ [] }

abbrev closing : Container
closing = record exited { closed = true; finalizer = false; closers = 1 }

abbrev twice : Container
twice = record closing { close_complete = true; closers = 0; teardowns = false ∷ true ∷ [] }

-- closed after its finalizer ran at interpreter exit: it is torn down twice
life : Reachable twice
unfolding init arm_deferred_teardown enter_close finish_close run_at_exit
life =
    then_step (then_step (then_step (made true) (exits serving refl)) (enters exited refl))
      (finishes closing 0 refl refl)

abbrev closing_first : Container
closing_first = record serving { closed = true; finalizer = false; closers = 1 }

abbrev closed_once : Container
closed_once = record closing_first {
  armed = false;
  close_complete = true;
  closers = 0;
  teardowns = true ∷ [];
}

-- closed by one thread while another calls `close` as well, then collected
closed_life : Reachable (record closed_once { alive = false })
unfolding init arm_deferred_teardown enter_close finish_close collect
closed_life =
    then_step
      (then_step
        (then_step (then_step (made true) (enters serving refl)) (enters closing_first refl))
        (finishes closing_first 0 refl refl))
      (collected closed_once refl refl)

teardown-count_example : length twice.teardowns ≡ expected twice
teardown-count_example = teardown-count life

abbrev calls : List Call
calls = looks_up "a|p" true true ∷ closes 0 ∷ []

registry_code : Unit {0}
unfolding for_tenant register make make_room evict_from without_tenant touch close container_of get
    put remove init arm_deferred_teardown enter_close finish_close
registry_code = tt

makes_anew : (for_tenant "a|p" true true (after_calls calls empty_registry)).0 ≡ container 1
unfolding registry_code
makes_anew = refl

for_tenant-serves_example :
    let w = after_calls calls empty_registry in
    let (answer, w') = for_tenant "a|p" true true w in
    (size w'.tenants ≤ max_tenants) × Registered "a|p" answer w' × (is_closed w' 0 ≡ is_closed w 0)
unfolding registry_code
for_tenant-serves_example = for_tenant-serves calls "a|p" true true 0 refl
