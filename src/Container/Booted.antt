-- ===== src/Container/Booted.antt =====
-- A bootstrap that primes the README's contract and starts the worker.
use congine.Admission.{strict}
use congine.Admission.Samples.{admission_code}
use congine.BackgroundSync
use congine.Container.{blank, ensure_open}
use congine.Container.Bootstrap.{
  System, ends, bootstrap, Loaded, start_background_sync, bootstrap-Loaded,
}
use congine.Json.{ℤ, Value, str, dict, end, field, ok}
use congine.Prelude.{ℕ, String, ◌≡◌, refl, true, false, none, some, Option, [], ◌∷◌, List}
use congine.Samples.{whole_floats, literal_re, reply_schema}
use congine.Sync.{
  Ports, Settings, admission, admit, prime_one, candidate, prime_cache, apply, sync_once,
  sync_once_single_flight, enforced_keywords, record_rejection, error_codes, breaker_allows,
  breaker_record_success,
}

boot_code : Unit {0}
unfolding admission_code admission admit prime_one candidate prime_cache apply sync_once
    sync_once_single_flight enforced_keywords record_rejection error_codes breaker_allows
    breaker_record_success bootstrap start_background_sync ensure_open BackgroundSync.init
    BackgroundSync.start BackgroundSync.enter_loop
boot_code = tt

abbrev Ids : Type 0
Ids = List (Value ℕ)

abbrev answers : Ports ℕ Ids
answers = record {
  put = λ k v st. (ok tt, k ∷ st);
  fetch = ok (field "id" (str "reply") (field "schema" (dict reply_schema) end) ∷ []);
  load_snapshot = none;
  save = ok tt;
  interrupted = λ v. false;
  now = 0;
  failed_at = 0;
  boot_lock = none;
}

abbrev settings : Settings
settings = record {
  admission_mode = strict;
  semantic_validation_enabled = false;
  semantic_format_checking = false;
  semantic_capability = none;
}

abbrev parse : String → Option ℤ
parse s = none

abbrev system : System ℕ Ids
system = record {
  container = blank;
  world = record {
    store = [];
    breaker = none;
    rejected_total = 0;
    last_failure = none;
    snapshot = none;
  };
  sync_worker = some (BackgroundSync.init true);
}

bootstrap-system :
    (bootstrap whole_floats literal_re parse settings answers false true true system).0
    ≡ ends (ok 1)
unfolding boot_code
bootstrap-system = refl

bootstrap-Loaded_example :
    (system.container.closed ≡ false)
    × ((false ≡ false)
        × Loaded true 1 system.sync_worker
            (sync_once_single_flight whole_floats literal_re parse settings answers system.world)
            (bootstrap whole_floats literal_re parse settings answers false true true system).1)
bootstrap-Loaded_example =
    bootstrap-Loaded whole_floats literal_re parse settings answers false true true system 1
      bootstrap-system
