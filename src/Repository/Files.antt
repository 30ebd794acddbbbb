-- ===== src/Repository/Files.antt =====
-- The file repository. The file system, `json.loads` and `yaml.safe_load` are parameters.
use congine.Json.{Value, list, dict, Fields, has, get, Result, ok, raise, value_error, ◌>>=◌}
use congine.Prelude.{
  ℕ, suc, ◌-◌, String, Bool, ◌&&◌, Option, none, some, List, [], ◌∷◌, ◌++◌, length, take, ltb,
  if◌then◌else◌,
}
use congine.Repository.{mappings}

-- What `json.loads` or `yaml.safe_load` makes of the bytes of a file, decoded as UTF-8: a value, an
-- error of its own, or a UnicodeDecodeError.
pub data Decoded (F : Type 0) : Type 0 where
  decoded : Value F → Decoded F
  malformed undecodable : Decoded F

pub record Disk (F : Type 0) : Type 0 where
  pub is_dir : Bool
  -- the sorted results of `glob`; `none` where PyYAML cannot be imported
  pub json_paths : List String
  pub yaml_paths : Option (List String)
  -- the bytes of a file, `none` where opening or reading it raises an OSError
  pub bytes : String → Option (List ℕ)
  pub loads : List ℕ → Decoded F
  pub safe_load : List ℕ → Decoded F

pub record Settings : Type 0 where
  pub max_contract_files : ℕ
  pub max_file_bytes : ℕ

-- the raw bytes within the bound, `none` for an OSError
abbrev within : ℕ → List ℕ → Option (List ℕ)
within max_bytes raw = if ltb max_bytes (length raw) then none else some raw

-- `_read_json_file` and `_read_yaml_file` up to the parse: `read(max_file_bytes + 1)`
unfoldable pub read : Settings → Option (List ℕ) → Option (List ℕ)
read s none = none
read s (some content) = within s.max_file_bytes (take (suc s.max_file_bytes) content)

module _ {F : Type 0} where
  abbrev single : Fields F → List (Fields F)
  single fs = if has "id" fs && has "schema" fs then fs ∷ [] else []

  abbrev extract_mapping : Option (Value F) → Fields F → List (Fields F)
  extract_mapping (some (list xs)) fs = mappings xs
  extract_mapping _ fs = single fs

  -- `_extract`
  unfoldable pub extract : Value F → List (Fields F)
  unfolding mappings get
  extract (dict fs) = extract_mapping (get "contracts" fs) fs
  extract (list xs) = mappings xs
  extract _ = []

  abbrev pub contracts_of : Decoded F → Result (List (Fields F))
  contracts_of (decoded v) = ok (extract v)
  contracts_of malformed = ok []
  contracts_of undecodable = raise value_error

  -- the body of the loop: a file that cannot be read or parsed is skipped
  unfoldable pub file_contracts : (List ℕ → Decoded F) → Option (List ℕ) → Result (List (Fields F))
  unfolding extract
  file_contracts parse none = ok []
  file_contracts parse (some raw) = contracts_of (parse raw)

  unfoldable pub all_contracts :
      Settings
      → (String → Option (List ℕ))
      → (List ℕ → Decoded F)
      → List String
      → Result (List (Fields F))
  unfolding read file_contracts
  all_contracts s bytes parse [] = ok []
  all_contracts s bytes parse (path ∷ paths) = do
    these ← file_contracts parse (read s (bytes path))
    more ← all_contracts s bytes parse paths
    ok (these ++ more)

  abbrev pub yaml_part : Settings → Disk F → Option (List String) → Result (List (Fields F))
  yaml_part s disk none = ok []
  yaml_part s disk (some paths) =
      all_contracts s disk.bytes disk.safe_load
        (take (s.max_contract_files - length (take s.max_contract_files disk.json_paths)) paths)

  -- the files of a directory
  unfoldable pub directory_contracts : Settings → Disk F → Result (List (Fields F))
  unfolding all_contracts
  directory_contracts s disk = do
    json ← all_contracts s disk.bytes disk.loads (take s.max_contract_files disk.json_paths)
    yaml ← yaml_part s disk disk.yaml_paths
    ok (json ++ yaml)

  -- `fetch_active_contracts`
  unfoldable pub fetch_active_contracts : Settings → Disk F → Result (List (Fields F))
  unfolding directory_contracts
  fetch_active_contracts s disk = if disk.is_dir then directory_contracts s disk else ok []

  -- `load_snapshot`
  abbrev pub load_snapshot : Option (List (Fields F))
  load_snapshot = none
