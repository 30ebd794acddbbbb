-- ===== src/Sync/Examples.antt =====
-- A pass over one good and one misspelt contract, and the theorems of the sync at it.
use congine.Admission.{strict}
use congine.Admission.Samples.{admission_code, misspelt}
use congine.Json.{
  ℤ, Value, null, str, list, dict, nil, cons, Fields, end, field, Result, ok, raise, type_error,
}
use congine.Prelude.{
  ℕ, String, ◌≡◌, refl, true, false, none, some, Option, List, [], ◌∷◌, string_eq,
}
use congine.Samples.{whole_floats, literal_re, reply_schema}
use congine.Sync.{
  Ports, Settings, World, admission, admit, prime_one, candidate, prime_cache, apply, sync_once,
  sync_once_single_flight, enforced_keywords, record_rejection, error_codes, breaker_allows,
  breaker_record_success,
}
use congine.Sync.Gate.{Admitted, sync-gate, Counted, candidates, prime_cache-counts}

sync_code : Unit {0}
unfolding admission_code admission admit prime_one candidate prime_cache apply sync_once
    sync_once_single_flight enforced_keywords record_rejection error_codes breaker_allows
    breaker_record_success
sync_code = tt

abbrev good : Fields ℕ
good = field "id" (str "reply") (field "schema" (dict reply_schema) end)

abbrev bad : Fields ℕ
bad = field "id" (str "age") (field "schema" (dict misspelt) end)

-- A store that keeps the puts, the latest first.
abbrev Puts : Type 0
Puts = List (Value ℕ × Value ℕ)

abbrev ports : Ports ℕ Puts
ports = record {
  put = λ k v st. (ok tt, (k, v) ∷ st);
  fetch = ok (good ∷ bad ∷ []);
  load_snapshot = none;
  save = ok tt;
  interrupted = λ v. false;
  now = 0;
  failed_at = 0;
  boot_lock = some true;
}

abbrev settings : Settings
settings = record {
  admission_mode = strict;
  semantic_validation_enabled = false;
  semantic_format_checking = false;
  semantic_capability = none;
}

abbrev old : Puts
old = (str "age", dict end) ∷ []

abbrev start : World ℕ Puts
start = record {
  store = old;
  breaker = none;
  rejected_total = 0;
  last_failure = none;
  snapshot = none;
}

abbrev parse_int : String → Option ℤ
parse_int s = none

loads_one :
    (sync_once_single_flight whole_floats literal_re parse_int settings ports start).0 ≡ ok 1
unfolding sync_code
loads_one = refl

keeps_old :
    (sync_once_single_flight whole_floats literal_re parse_int settings ports start).1.store
    ≡ (str "reply", dict reply_schema) ∷ old
unfolding sync_code
keeps_old = refl

prime_cache-counts_example :
    Counted whole_floats literal_re parse_int settings ports
      (candidates whole_floats literal_re parse_int settings ports (good ∷ bad ∷ []))
      0
      (prime_cache whole_floats literal_re parse_int settings ports (good ∷ bad ∷ []) start)
prime_cache-counts_example =
    prime_cache-counts whole_floats literal_re parse_int settings ports (good ∷ bad ∷ []) start

-- a storage that hashes texts only
abbrev hash_put : Value ℕ → Value ℕ → Puts → Result (Unit {0}) × Puts
hash_put (list xs) v st = (raise type_error, st)
hash_put k v st = (ok tt, (k, v) ∷ st)

abbrev listed : Fields ℕ
listed = field "id" (list (cons null nil)) (field "schema" (dict reply_schema) end)

-- an id that is a list ends the pass, and the contracts after it are not read
unhashable :
    (prime_cache whole_floats literal_re parse_int settings
      (record ports { put = hash_put })
      (listed ∷ good ∷ [])
      start).0
    ≡ raise type_error
unfolding sync_code
unhashable = refl

AllAdmitted : Puts → Type 0
AllAdmitted [] = Unit
AllAdmitted ((k, v) ∷ st) =
    Admitted whole_floats literal_re parse_int settings ports v × AllAdmitted st

abbrev empty_start : World ℕ Puts
empty_start = record start { store = [] }

sync-gate_example :
    AllAdmitted
      (sync_once_single_flight whole_floats literal_re parse_int settings ports empty_start).1.store
sync-gate_example =
    sync-gate whole_floats literal_re parse_int settings ports AllAdmitted empty_start
      (λ contracts o contract k v st m e admitted p. unfold AllAdmitted in (admitted, p))
      (unfold AllAdmitted in tt)
