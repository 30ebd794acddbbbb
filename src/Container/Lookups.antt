-- ===== src/Container/Lookups.antt =====
-- The tenant registry is bounded, serves open containers, and closes none.
use congine.Container.Tenants.{
  max_tenants, Registry, Answer, is_closed, make, register, without_tenant, touch, for_tenant,
  close, close_all, fresh_default, get_default, cleared_default, reset_default,
}
use congine.Dict.{
  Dict, get, put, remove, has, size, get-put, get-remove, size-remove-le, size-remove-lt,
}
use congine.Prelude.{
  ℕ, suc, ◌≤◌, String, ◌≡◌, refl, ◌∙◌, Bool, true, false, Option, none, some, List, [], ◌∷◌, arith,
  string_eq, nat_eq, ◌==◌, beq_refl, Bool-cases, Option-cases, inl, inr,
}
use congine.Container.Registry.{
  Registered, register-size, register-Registered, register-is_closed, size-put-le,
}

-- The calls on the class, with how the configuration and the construction fare.
pub data Call : Type 0 where
  looks_up : String → Bool → Bool → Call
  defaults : Bool → Bool → Bool → Call
  closes : ℕ → Call
  resets : Call

abbrev pub after_call : Call → Registry → Registry
after_call (looks_up k accepted built) w = (for_tenant k accepted built w).1
after_call (defaults multi_tenant accepted built) w = (get_default multi_tenant accepted built w).1
after_call (closes n) w = close n w
after_call resets w = reset_default w

abbrev pub after_calls : List Call → Registry → Registry
after_calls [] w = w
after_calls (x ∷ xs) w = after_calls xs (after_call x w)

abbrev pub empty_registry : Registry
empty_registry = record {
  tenants = [];
  containers = [];
  next = 0;
  evicted_total = 0;
  default_instance = none;
}

-- What a lookup does: the tenants stay within the bound, the answer is registered, and no container
-- but a new one changes whether it is closed.
LookedUp : String → ℕ → Registry → Answer × Registry → Type 0
LookedUp k m w (answer, w') =
    (size w'.tenants ≤ max_tenants) × Registered k answer w' × (is_closed w' m ≡ is_closed w m)

register-LookedUp :
    (k : String) (accepted built : Bool) (m : ℕ) (w : Registry)
    → size w.tenants ≤ max_tenants
    → get k w.tenants ≡ none
    → (w.next == m) ≡ false
    → LookedUp k m w (register k accepted built w)
unfolding LookedUp
register-LookedUp k accepted built m w h absent new = (
  register-size k accepted built w h,
  register-Registered k accepted built w absent,
  register-is_closed m k accepted built w new,
)

touch-size :
    (k : String) (n : ℕ) (d : Dict String ℕ)
    → size d ≤ max_tenants
    → has k d ≡ true
    → size (put k n (remove k d)) ≤ max_tenants
touch-size k n d h there_is =
    omega (arith, h, size-put-le k n (remove k d), size-remove-lt k d there_is)

for_tenant-LookedUp :
    (k : String) (accepted built : Bool) (m : ℕ) (w : Registry)
    → size w.tenants ≤ max_tenants
    → (w.next == m) ≡ false
    → LookedUp k m w (for_tenant k accepted built w)
unfolding for_tenant
for_tenant-LookedUp k accepted built m w h new = elim (Option-cases (get k w.tenants)) [
  | inl absent ↦ rw (for_tenant, absent) (register-LookedUp k accepted built m w h absent new)
  | inr (n, found) ↦ elim (Bool-cases (is_closed w n)) [
    | inl closed ↦
        rw (for_tenant, found, closed)
          (unfold LookedUp without_tenant in
            register-LookedUp k accepted built m (without_tenant k w)
              (omega (arith, h, size-remove-le k w.tenants))
              (get-remove k k w.tenants ∙ rw (beq_refl k) refl) new)
    | inr opened ↦
        rw (for_tenant, found, opened)
          (unfold LookedUp touch without_tenant in
            (
              touch-size k n w.tenants h (ground (arith, found)),
              (get-put k k n (remove k w.tenants) ∙ rw (beq_refl k) refl, opened),
              refl,
            ))
  ]
]

close-tenants : (n : ℕ) (w : Registry) → (close n w).tenants ≡ w.tenants
unfolding close
close-tenants n w = refl

close_all-tenants : (d : Dict String ℕ) (w : Registry) → (close_all d w).tenants ≡ w.tenants
unfolding close_all
close_all-tenants [] w = refl
close_all-tenants ((k, n) ∷ d) w = close_all-tenants d (close n w) ∙ close-tenants n w

fresh_default-tenants :
    (accepted built : Bool) (w : Registry) → (fresh_default accepted built w).1.tenants ≡ w.tenants
unfolding fresh_default make
fresh_default-tenants true true w = refl
fresh_default-tenants true false w = refl
fresh_default-tenants false built w = refl

get_default-tenants :
    (multi_tenant accepted built : Bool) (w : Registry)
    → (get_default multi_tenant accepted built w).1.tenants ≡ w.tenants
unfolding get_default
get_default-tenants multi_tenant accepted built w = elim (Bool-cases multi_tenant) [
  | inl multi ↦ rw multi refl
  | inr single ↦ elim (Option-cases w.default_instance) [
    | inl absent ↦ rw (get_default, single, absent) (fresh_default-tenants accepted built w)
    | inr (n, there_is) ↦ elim (Bool-cases (is_closed w n)) [
      | inl closed ↦
          rw (get_default, single, there_is, closed) (fresh_default-tenants accepted built w)
      | inr opened ↦ rw (get_default, single, there_is, opened) refl
    ]
  ]
]

cleared-tenants :
    (w : Registry) (default : Option ℕ)
    → (cleared_default default (record w { tenants = []; default_instance = none })).tenants ≡ []
unfolding close
cleared-tenants w none = refl
cleared-tenants w (some n) = refl

reset_default-tenants : (w : Registry) → (reset_default w).tenants ≡ []
unfolding reset_default
reset_default-tenants w = close_all-tenants w.tenants _ ∙ cleared-tenants w w.default_instance

after_call-bounded :
    (x : Call) (w : Registry)
    → size w.tenants ≤ max_tenants
    → size (after_call x w).tenants ≤ max_tenants
unfolding LookedUp
after_call-bounded (looks_up k accepted built) w h =
    (for_tenant-LookedUp k accepted built (suc w.next) w h
      (ground (arith, nat_eq.beq_iff w.next (suc w.next)))).0
after_call-bounded (defaults multi_tenant accepted built) w h =
    rw (get_default-tenants multi_tenant accepted built w) h
after_call-bounded (closes n) w h = rw (close-tenants n w) h
after_call-bounded resets w h = rw (reset_default-tenants w) (omega arith)

after_calls-size :
    (xs : List Call) (w : Registry)
    → size w.tenants ≤ max_tenants
    → size (after_calls xs w).tenants ≤ max_tenants
after_calls-size [] w h = h
after_calls-size (x ∷ xs) w h = after_calls-size xs (after_call x w) (after_call-bounded x w h)

-- A lookup of a tenant, after any calls on the class: at most `_MAX_TENANTS` tenants are registered;
-- if it answers a container, that container is open and registered under the tenant's key, and if it
-- raises, nothing is; and no other container is closed by it, the evicted one included.
pub for_tenant-serves :
    (xs : List Call) (k : String) (accepted built : Bool) (m : ℕ)
    → ((after_calls xs empty_registry).next == m) ≡ false
    → let w = after_calls xs empty_registry in
      let (answer, w') = for_tenant k accepted built w in
      (size w'.tenants ≤ max_tenants) × Registered k answer w' × (is_closed w' m ≡ is_closed w m)
unfolding LookedUp
for_tenant-serves xs k accepted built m new =
    for_tenant-LookedUp k accepted built m (after_calls xs empty_registry)
      (after_calls-size xs empty_registry (omega arith)) new
