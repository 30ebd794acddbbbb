-- ===== src/Container/Teardown.antt =====
-- How often a container is torn down.
use congine.Container.{
  Container, blank, arm_deferred_teardown, init, enter_close, finish_close, collect, run_at_exit,
  Step, arms, enters, finishes, collected, exits, Reachable, made, then_step,
}
use congine.Prelude.{
  ℕ, suc, ◌+◌, ◌≡◌, refl, subst, Bool, true, false, false≢true, [], ◌∷◌, length, arith, not, ◌||◌,
  ◌&&◌, if◌then◌else◌,
}

-- A container that serves, is being closed, or is closed.
data Stage : Type 0 where
  serving closing closed_now : Stage

-- The states that a container goes through: a stage, whether the finalizer ran at exit, and whether
-- anything refers to it.
abbrev state : Stage → Bool → Bool → Container
state serving exited alive = record blank {
  finalizer = true;
  armed = not exited && alive;
  ran_at_exit = exited;
  teardowns = if exited || not alive then false ∷ [] else [];
  alive = alive;
}
state closing exited alive = record blank {
  closed = true;
  closers = 1;
  armed = not exited;
  ran_at_exit = exited;
  teardowns = if exited then false ∷ [] else [];
}
state closed_now exited alive = record blank {
  closed = true;
  close_complete = true;
  ran_at_exit = exited;
  teardowns = if exited then false ∷ true ∷ [] else true ∷ [];
  alive = alive;
}

data Phase : Container → Type 0 where
  at : (stage : Stage) (exited alive : Bool) → Phase (state stage exited alive)
  never_built :
      Phase (record blank {
        closed = true;
        close_complete = true;
        teardowns = false ∷ [];
        alive = false;
      })

arm-Phase : {c : Container} → Phase c → c.alive ≡ true → Phase (arm_deferred_teardown c)
unfolding arm_deferred_teardown
arm-Phase (at serving exited alive) h = at serving exited alive
arm-Phase (at closing exited alive) h = at closing exited alive
arm-Phase (at closed_now exited alive) h = at closed_now exited alive
arm-Phase never_built h = absurd (false≢true h)

enter_close-Phase : {c : Container} → Phase c → c.alive ≡ true → Phase (enter_close c)
unfolding enter_close
enter_close-Phase (at serving true true) h = at closing true true
enter_close-Phase (at serving false true) h = at closing false true
enter_close-Phase (at serving exited false) h = absurd (false≢true h)
enter_close-Phase (at closing exited alive) h = at closing exited alive
enter_close-Phase (at closed_now exited alive) h = at closed_now exited alive
enter_close-Phase never_built h = absurd (false≢true h)

finish_close-Phase :
    {c : Container} (n : ℕ)
    → Phase c
    → c.closers ≡ suc n
    → Phase (record (finish_close c) { closers = n })
unfolding finish_close
finish_close-Phase n (at serving exited alive) h = absurd (omega (arith, h))
finish_close-Phase n (at closing true alive) h =
    subst (λ m. Phase (record (state closed_now true true) { closers = m })) (omega (arith, h))
      (at closed_now true true)
finish_close-Phase n (at closing false alive) h =
    subst (λ m. Phase (record (state closed_now false true) { closers = m })) (omega (arith, h))
      (at closed_now false true)
finish_close-Phase n (at closed_now exited alive) h = absurd (omega (arith, h))
finish_close-Phase n never_built h = absurd (omega (arith, h))

collect-Phase : {c : Container} → Phase c → c.alive ≡ true → c.closers ≡ 0 → Phase (collect c)
unfolding collect
collect-Phase (at serving true true) alive h = at serving true false
collect-Phase (at serving false true) alive h = at serving false false
collect-Phase (at serving exited false) alive h = absurd (false≢true alive)
collect-Phase (at closing exited a) alive h = absurd (omega (arith, h))
collect-Phase (at closed_now exited a) alive h = at closed_now exited false
collect-Phase never_built alive h = absurd (false≢true alive)

run_at_exit-Phase : {c : Container} → Phase c → Phase (run_at_exit c)
unfolding run_at_exit
run_at_exit-Phase (at serving true alive) = at serving true alive
run_at_exit-Phase (at serving false true) = at serving true true
run_at_exit-Phase (at serving false false) = at serving false false
run_at_exit-Phase (at closing true alive) = at closing true alive
run_at_exit-Phase (at closing false alive) = at closing true alive
run_at_exit-Phase (at closed_now exited alive) = at closed_now exited alive
run_at_exit-Phase never_built = never_built

step-Phase : {c d : Container} → Phase c → Step c d → Phase d
step-Phase p (arms c alive) = arm-Phase p alive
step-Phase p (enters c alive) = enter_close-Phase p alive
step-Phase p (finishes c n alive h) = finish_close-Phase n p h
step-Phase p (collected c alive h) = collect-Phase p alive h
step-Phase p (exits c alive) = run_at_exit-Phase p

init-Phase : (built : Bool) → Phase (init built)
unfolding init arm_deferred_teardown
init-Phase true = at serving false true
init-Phase false = never_built

reachable-Phase : {c : Container} → Reachable c → Phase c
reachable-Phase (made built) = init-Phase built
reachable-Phase (then_step r s) = step-Phase (reachable-Phase r) s

-- How often a container has been torn down.
abbrev pub expected : Container → ℕ
expected c =
    (if c.close_complete || (not c.alive || c.ran_at_exit) then 1 else 0)
    + (if c.ran_at_exit && c.close_complete then 1 else 0)

teardowns-count : {c : Container} → Phase c → length c.teardowns ≡ expected c
teardowns-count (at serving true alive) = ground arith
teardowns-count (at serving false true) = refl
teardowns-count (at serving false false) = refl
teardowns-count (at closing true alive) = refl
teardowns-count (at closing false alive) = refl
teardowns-count (at closed_now true alive) = refl
teardowns-count (at closed_now false alive) = refl
teardowns-count never_built = refl

-- Whatever calls of `close` overlap and whatever arms the finalizer, the components of a container
-- have been torn down once if a `close` is complete, nothing refers to the container any more, or its
-- finalizer ran at interpreter exit; a second time exactly if a `close` was completed after the
-- finalizer had run at exit; and not at all otherwise.
pub teardown-count : {c : Container} → Reachable c → length c.teardowns ≡ expected c
teardown-count r = teardowns-count (reachable-Phase r)
