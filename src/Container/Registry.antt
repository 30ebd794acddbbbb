-- ===== src/Container/Registry.antt =====
-- What the registration of a new container does to the tenant registry.
use congine.Container.{Container, init, arm_deferred_teardown}
use congine.Container.Tenants.{
  max_tenants, Registry, Answer, container, misconfigured, failed, container_of, is_closed, make,
  evict_from, make_room, register,
}
use congine.Dict.{Dict, get, put, size, get-put, size-put}
use congine.Prelude.{
  ℕ, suc, ◌≤◌, ◌<◌, String, ◌≡◌, refl, ap, ◌∙◌, Bool, true, false, none, some, [], ◌∷◌, leb, arith,
  string_eq, nat_eq, ◌==◌, beq_refl, if◌then◌else◌, Bool-cases, inl, inr,
}

-- What a lookup leaves under its key: the open container that it answers, or nothing.
abbrev pub Registered : String → Answer → Registry → Type 0
Registered k (container n) w = (get k w.tenants ≡ some n) × (is_closed w n ≡ false)
Registered k misconfigured w = get k w.tenants ≡ none
Registered k failed w = get k w.tenants ≡ none

evict_from-size :
    (d : Dict String ℕ) (w : Registry)
    → size d ≡ size w.tenants
    → size w.tenants ≤ max_tenants
    → size (evict_from d w).tenants < max_tenants
unfolding evict_from
evict_from-size [] w h i = omega (arith, h)
evict_from-size (x ∷ d) w h i = omega (arith, h, i)

make_room-size :
    (w : Registry) → size w.tenants ≤ max_tenants → size (make_room w).tenants < max_tenants
unfolding make_room
make_room-size w h = elim (Bool-cases (leb max_tenants (size w.tenants))) [
  | inl full ↦ rw full (evict_from-size w.tenants w refl h)
  | inr room ↦ rw room (ground (arith, room))
]

evict_from-none :
    (k : String) (d : Dict String ℕ) (w : Registry)
    → get k d ≡ none
    → get k w.tenants ≡ none
    → get k (evict_from d w).tenants ≡ none
unfolding evict_from get
evict_from-none k [] w h i = i
evict_from-none k ((j, n) ∷ d) w h i = ground (arith, h)

make_room-none :
    (k : String) (w : Registry) → get k w.tenants ≡ none → get k (make_room w).tenants ≡ none
unfolding make_room
make_room-none k w h = elim (Bool-cases (leb max_tenants (size w.tenants))) [
  | inl full ↦ rw full (evict_from-none k w.tenants w h h)
  | inr room ↦ rw room h
]

evict_from-next : (d : Dict String ℕ) (w : Registry) → (evict_from d w).next ≡ w.next
unfolding evict_from
evict_from-next [] w = refl
evict_from-next (x ∷ d) w = refl

make_room-next : (w : Registry) → (make_room w).next ≡ w.next
unfolding make_room
make_room-next w = ground (arith, evict_from-next w.tenants w)

arm-closed : (c : Container) → (arm_deferred_teardown c).closed ≡ c.closed
unfolding arm_deferred_teardown
arm-closed c = ground arith

container_of-put :
    (n m : ℕ) (c : Container) (containers : Dict ℕ Container)
    → container_of (put n c containers) m ≡ (if n == m then c else container_of containers m)
unfolding container_of
container_of-put n m c containers = elim (Bool-cases (n == m)) [
  | inl same ↦ rw (container_of, get-put n m c containers, same) refl
  | inr other ↦ rw (container_of, get-put n m c containers, other) refl
]

evict_from-is_closed :
    (m : ℕ) (d : Dict String ℕ) (w : Registry) → is_closed (evict_from d w) m ≡ is_closed w m
unfolding evict_from
evict_from-is_closed m [] w = refl
evict_from-is_closed m ((k, n) ∷ d) w =
    ap (λ c. c.closed)
      (container_of-put n m (arm_deferred_teardown (container_of w.containers n)) w.containers)
    ∙ ground (arith, nat_eq.beq_iff n m, arm-closed (container_of w.containers n))

make_room-is_closed : (m : ℕ) (w : Registry) → is_closed (make_room w) m ≡ is_closed w m
unfolding make_room
make_room-is_closed m w = elim (Bool-cases (leb max_tenants (size w.tenants))) [
  | inl full ↦ rw full (evict_from-is_closed m w.tenants w)
  | inr room ↦ rw room refl
]

pub size-put-le : (k : String) (n : ℕ) (d : Dict String ℕ) → size (put k n d) ≤ suc (size d)
size-put-le k n d = ground (arith, size-put k n d)

init-open : (init true).closed ≡ false
unfolding init arm_deferred_teardown
init-open = refl

pub register-size :
    (k : String) (accepted built : Bool) (w : Registry)
    → size w.tenants ≤ max_tenants
    → size (register k accepted built w).1.tenants ≤ max_tenants
unfolding register make
register-size k true true w h =
    omega (arith, size-put-le k w.next (make_room w).tenants, make_room-size w h)
register-size k true false w h = omega (arith, make_room-size w h)
register-size k false built w h = h

pub register-Registered :
    (k : String) (accepted built : Bool) (w : Registry)
    → get k w.tenants ≡ none
    → Registered k (register k accepted built w).0 (register k accepted built w).1
unfolding register make
register-Registered k true true w h = (
  get-put k k w.next (make_room w).tenants ∙ rw (beq_refl k) refl,
  ap (λ c. c.closed)
        (container_of-put (make_room w).next w.next (init true) (make_room w).containers)
      ∙ rw (make_room-next w) (rw (beq_refl w.next) init-open),
)
register-Registered k true false w h = make_room-none k w h
register-Registered k false built w h = h

pub register-is_closed :
    (m : ℕ) (k : String) (accepted built : Bool) (w : Registry)
    → (w.next == m) ≡ false
    → is_closed (register k accepted built w).1 m ≡ is_closed w m
unfolding register make
register-is_closed m k true true w h =
    ap (λ c. c.closed) (container_of-put (make_room w).next m (init true) (make_room w).containers)
    ∙ rw (make_room-next w) (rw h (make_room-is_closed m w))
register-is_closed m k true false w h =
    ap (λ c. c.closed) (container_of-put (make_room w).next m (init false) (make_room w).containers)
    ∙ rw (make_room-next w) (rw h (make_room-is_closed m w))
register-is_closed m k false built w h = refl
