-- ===== src/Repository/Examples.antt =====
-- A directory with one contract, and a snapshot that is saved and loaded.
use congine.Json.{Value, str, list, dict, nil, Fields, end, field, get, ok, type_error, raise}
use congine.Prelude.{
  ℕ, ◌-◌, String, ◌≡◌, ◌⊎◌, refl, true, none, some, List, [], ◌∷◌, ◌==◌, string_eq, if◌then◌else◌,
  length, take,
}
use congine.Repository.Bounds.{here, Stems, fetch_active_contracts-bounded}
use congine.Repository.Files.{Decoded, decoded, malformed, Disk, Settings, extract}
use congine.Repository.Files
use congine.Repository.Snapshots
use congine.Repository.Snapshots.{
  System, File, envelope, save_snapshot, load_snapshot, expected, Saved, save-load, answered,
}
use congine.Samples.{reply_schema}

abbrev contract : Fields ℕ
contract = field "id" (str "reply") (field "schema" (dict reply_schema) end)

abbrev disk : Disk ℕ
disk = record {
  is_dir = true;
  json_paths = "a.json" ∷ "b.json" ∷ [];
  yaml_paths = none;
  bytes = λ path. if path == "a.json" then some (1 ∷ 2 ∷ []) else some (1 ∷ 2 ∷ 3 ∷ 4 ∷ []);
  loads = λ raw. decoded (dict contract);
  safe_load = λ raw. malformed;
}

abbrev limits : Settings
limits = record { max_contract_files = 5; max_file_bytes = 3 }

reads_one : Files.fetch_active_contracts limits disk ≡ ok (contract ∷ [])
unfolding Files.fetch_active_contracts extract get
reads_one = refl

fetch_active_contracts-bounded_example :
    Stems limits disk (take 5 disk.json_paths) disk.loads contract
    ⊎ ((yaml : List String) × (disk.yaml_paths ≡ some yaml)
        × Stems limits disk
            (take (5 - length (take 5 disk.json_paths)) yaml)
            disk.safe_load
            contract)
fetch_active_contracts-bounded_example = fetch_active_contracts-bounded limits disk reads_one here

abbrev sys : System ℕ
sys = record {
  json_dump = λ v. ok "{...}";
  json_load = λ text. some (envelope "now" (contract ∷ []));
  prepares = ok tt;
  mkstemp = ok tt;
  replaces = ok tt;
}

save-load_example :
    let (answer, after) = save_snapshot sys true "now" (contract ∷ []) none in
    (answer ≡ expected sys true "now" (contract ∷ []))
    × Saved sys true (contract ∷ []) none answer after
save-load_example = save-load sys true "now" (contract ∷ []) none (λ content h. refl)

abbrev array : Value ℕ
array = list nil

-- A body that is an array is no sync error.
array_body : Snapshots.fetch_active_contracts 100 (answered 2 (some array)) ≡ raise type_error
unfolding Snapshots.fetch_active_contracts
array_body = refl
