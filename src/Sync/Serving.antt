-- ===== src/Sync/Serving.antt =====
-- The sync over the LFU cache: what the workflow finds in the cache is admitted policy.
use congine.Admission.{admit_contract}
use congine.Dict
use congine.Json.{
  ℤ, Value, null, bool, num, list, dict, str, Floats, Re2, Result, ok, raise, type_error,
}
use congine.LfuCache
use congine.LfuCache.{LfuCache}
use congine.LfuCache.Contents.{Within, put-entry, get-Within, get-held, sweep-Within, clear-Within}
use congine.Prelude.{
  nat_beq, if◌then◌else◌, ℕ, String, ◌≡◌, refl, sym, subst, true, Option, none, some, List, [], ◌∷◌,
  inl, inr, arith, string_eq, Option-cases,
}
use congine.Sync.{Ports, Settings, World, enforced_keywords, admission, sync_once_single_flight}
use congine.Sync.Gate.{sync-gate}

abbrev or_keep : {A : Type 0} → A → Option A → A
or_keep a none = a
or_keep a (some b) = b

-- `put` of the cache, as a port. The workflow looks up ids that are texts; a put under another id that
-- can be hashed can only evict what it finds, and one that cannot raises unless the capacity is 0.
abbrev pub cache_put :
    {F : Type 0}
    → ℕ
    → ℕ
    → Value F
    → Value F
    → LfuCache (Value F)
    → Result (Unit {0}) × LfuCache (Value F)
cache_put now ttl (str key) schema c = (ok tt, or_keep c (LfuCache.put now c key schema (some ttl)))
cache_put now ttl (list xs) schema c = (if nat_beq c.capacity 0 then ok tt else raise type_error, c)
cache_put now ttl (dict fs) schema c = (if nat_beq c.capacity 0 then ok tt else raise type_error, c)
cache_put now ttl _ schema c = (ok tt, c)

-- What the outside answers during a pass, with the cache as its storage and the reading of the clock at
-- the put of an id and a schema.
abbrev pub cache_ports :
    {F : Type 0} → ℕ → (Value F → Value F → ℕ) → Ports F (Unit {0}) → Ports F (LfuCache (Value F))
cache_ports ttl clock answers = record {
  put = λ contract_id schema c. cache_put (clock contract_id schema) ttl contract_id schema c;
  fetch = answers.fetch;
  load_snapshot = answers.load_snapshot;
  save = answers.save;
  interrupted = answers.interrupted;
  now = answers.now;
  failed_at = answers.failed_at;
  boot_lock = answers.boot_lock;
}

-- What happens to the cache: a sync pass, a read, a sweep, or a clear.
pub data Event (F : Type 0) : Type 0 where
  syncs : (Value F → Value F → ℕ) → Ports F (Unit {0}) → Event F
  reads : ℕ → String → Event F
  sweeps : (ℕ → ℕ) → Event F
  clears : Event F

abbrev read_left : {V : Type 0} → LfuCache V → Option (LfuCache V × Option V) → LfuCache V
read_left c none = c
read_left c (some (c', answer)) = c'

module _ {F : Type 0} (fl : Floats F) (re : Re2) (parse_int : String → Option ℤ) (s : Settings)
    (ttl : ℕ) where
  abbrev pub after : List (Event F) → World F (LfuCache (Value F)) → World F (LfuCache (Value F))
  after [] w = w
  after (syncs clock answers ∷ events) w =
      after events (sync_once_single_flight fl re parse_int s (cache_ports ttl clock answers) w).1
  after (reads now key ∷ events) w =
      after events (record w { store = read_left w.store (LfuCache.get now w.store key) })
  after (sweeps clock ∷ events) w =
      after events (record w { store = (LfuCache.sweep_expired clock w.store).0 })
  after (clears ∷ events) w = after events (record w { store = LfuCache.clear w.store })

  -- a schema that admission accepts under the settings
  abbrev pub Policy : Value F → Type 0
  Policy schema =
      (admit_contract re parse_int s.admission_mode (enforced_keywords s) s.semantic_capability
        schema).admitted
      ≡ true

  AllPolicy : LfuCache (Value F) → Type 0
  AllPolicy c =
      (k : String) (entry : Value F × ℕ) → Dict.get k c.key_to_value ≡ some entry → Policy entry.0

  Within-AllPolicy : (c c' : LfuCache (Value F)) → Within c c' → AllPolicy c → AllPolicy c'
  unfolding Within AllPolicy
  Within-AllPolicy c c' within all k entry found = all k entry (within k entry found)

  put-AllPolicy :
      (now : ℕ) (k schema : Value F) (c : LfuCache (Value F))
      → Policy schema
      → AllPolicy c
      → AllPolicy (cache_put now ttl k schema c).1
  unfolding AllPolicy
  put-AllPolicy now (str key) schema c good all k entry found =
      elim (Option-cases (LfuCache.put now c key schema (some ttl))) [
        | inl failed ↦
            all k entry
              (subst (λ o. Dict.get k (or_keep c o).key_to_value ≡ some entry) failed found)
        | inr (c', done) ↦
            elim (put-entry now c key schema (some ttl) done k entry
              (subst (λ o. Dict.get k (or_keep c o).key_to_value ≡ some entry) done found)) [
                | inl given ↦ subst (λ (x : Value F × ℕ). Policy x.0) given good
                | inr before ↦ all k entry before
              ]
      ]
  put-AllPolicy now null schema c good all k entry found = all k entry found
  put-AllPolicy now (bool b) schema c good all k entry found = all k entry found
  put-AllPolicy now (num n) schema c good all k entry found = all k entry found
  put-AllPolicy now (list xs) schema c good all k entry found = all k entry found
  put-AllPolicy now (dict fs) schema c good all k entry found = all k entry found

  sync-AllPolicy :
      (clock : Value F → Value F → ℕ) (answers : Ports F (Unit {0}))
      (w : World F (LfuCache (Value F)))
      → AllPolicy w.store
      → AllPolicy
          (sync_once_single_flight fl re parse_int s (cache_ports ttl clock answers) w).1.store
  sync-AllPolicy clock answers w all =
      sync-gate fl re parse_int s (cache_ports ttl clock answers) AllPolicy w
        (λ contracts offered contract k schema st among candidate admitted st_all.
          put-AllPolicy (clock k schema) k schema st (unfold admission in admitted) st_all)
        all

  read-AllPolicy :
      (now : ℕ) (key : String) (c : LfuCache (Value F))
      → AllPolicy c
      → AllPolicy (read_left c (LfuCache.get now c key))
  read-AllPolicy now key c all = go (LfuCache.get now c key) refl
    where
      go :
          (o : Option (LfuCache (Value F) × Option (Value F)))
          → LfuCache.get now c key ≡ o
          → AllPolicy (read_left c o)
      go none h = all
      go (some (c', answer)) h = Within-AllPolicy c c' (get-Within now c key h) all

  after-AllPolicy :
      (events : List (Event F)) (w : World F (LfuCache (Value F)))
      → AllPolicy w.store
      → AllPolicy (after events w).store
  after-AllPolicy [] w all = all
  after-AllPolicy (syncs clock answers ∷ events) w all =
      after-AllPolicy events _ (sync-AllPolicy clock answers w all)
  after-AllPolicy (reads now key ∷ events) w all =
      after-AllPolicy events (record w { store = read_left w.store (LfuCache.get now w.store key) })
        (read-AllPolicy now key w.store all)
  after-AllPolicy (sweeps clock ∷ events) w all =
      after-AllPolicy events (record w { store = (LfuCache.sweep_expired clock w.store).0 })
        (Within-AllPolicy w.store _ (sweep-Within clock w.store) all)
  after-AllPolicy (clears ∷ events) w all =
      after-AllPolicy events (record w { store = LfuCache.clear w.store })
        (Within-AllPolicy w.store _ (clear-Within w.store) all)

  init-AllPolicy : (capacity default : ℕ) → AllPolicy (LfuCache.init capacity default)
  unfolding AllPolicy LfuCache.init Dict.get
  init-AllPolicy capacity default k entry found = absurd (ground (arith, found))

  -- Only admitted policy is served: from an empty cache on, after any sync passes, reads, sweeps and
  -- clears, however each fetch, breaker, boot lock and admission check ends, a schema that the cache
  -- returns for an id is one that admission accepts under the settings.
  pub served-Policy :
      (events : List (Event F)) (w : World F (LfuCache (Value F))) (capacity default now : ℕ)
      (key : String) {c' : LfuCache (Value F)} {schema : Value F}
      → w.store ≡ LfuCache.init capacity default
      → LfuCache.get now (after events w).store key ≡ some (c', some schema)
      → Policy schema
  unfolding AllPolicy
  served-Policy events w capacity default now key {c'} {schema} empty h =
      let (expire_at, held) = get-held now (after events w).store key h in
      after-AllPolicy events w (subst AllPolicy (sym empty) (init-AllPolicy capacity default)) key
        (schema, expire_at) held
