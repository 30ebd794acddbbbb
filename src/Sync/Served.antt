-- ===== src/Sync/Served.antt =====
-- A pass over the README's contract, and what the cache then serves.
use congine.Admission.{strict}
use congine.Admission.Samples.{admission_code}
use congine.Dict
use congine.Json.{ℤ, Value, str, dict, end, field, ok}
use congine.LfuCache
use congine.LfuCache.{LfuCache, setdefault_add}
use congine.Prelude.{ℕ, String, ◌≡◌, refl, false, none, some, Option, [], ◌∷◌, List}
use congine.Samples.{whole_floats, literal_re, reply_schema}
use congine.Sync.{
  Ports, Settings, World, admission, admit, prime_one, candidate, prime_cache, apply, sync_once,
  sync_once_single_flight, enforced_keywords, record_rejection, error_codes, breaker_allows,
  breaker_record_success,
}
use congine.Sync.Serving.{Event, syncs, after, Policy, served-Policy}

serving_code : Unit {0}
unfolding admission_code admission admit prime_one candidate prime_cache apply sync_once
    sync_once_single_flight enforced_keywords record_rejection error_codes breaker_allows
    breaker_record_success LfuCache.init LfuCache.insert_new LfuCache.increment_freq
    LfuCache.evict_lfu LfuCache.get LfuCache.put setdefault_add Dict.get Dict.put Dict.remove
serving_code = tt

abbrev answers : Ports ℕ (Unit {0})
answers = record {
  put = λ k v st. (ok tt, st);
  fetch = ok (field "id" (str "reply") (field "schema" (dict reply_schema) end) ∷ []);
  load_snapshot = none;
  save = ok tt;
  interrupted = λ v. false;
  now = 0;
  failed_at = 0;
  boot_lock = none;
}

abbrev settings : Settings
settings = record {
  admission_mode = strict;
  semantic_validation_enabled = false;
  semantic_format_checking = false;
  semantic_capability = none;
}

abbrev start : World ℕ (LfuCache (Value ℕ))
start = record {
  store = LfuCache.init 8 300;
  breaker = none;
  rejected_total = 0;
  last_failure = none;
  snapshot = none;
}

abbrev parse_int : String → Option ℤ
parse_int s = none

abbrev events : List (Event ℕ)
events = syncs (λ k v. 5) answers ∷ []

abbrev served : Option (LfuCache (Value ℕ) × Option (Value ℕ))
served =
    LfuCache.get 10 (after whole_floats literal_re parse_int settings 300 events start).store
      "reply"

left : LfuCache (Value ℕ)
left = elim served [ none ↦ LfuCache.init 8 300 | some (c, answer) ↦ c ]

serves_reply : served ≡ some (left, some (dict reply_schema))
unfolding serving_code left
serves_reply = refl

served-Policy_example : Policy whole_floats literal_re parse_int settings 300 (dict reply_schema)
served-Policy_example =
    served-Policy whole_floats literal_re parse_int settings 300 events start 8 300 10 "reply" refl
      serves_reply
