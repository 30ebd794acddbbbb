-- ===== src/Repository/Snapshots.antt =====
-- The HTTP repository: the fetch, and the snapshot file. The HTTP client, `json.dump`, `json.load`
-- and the file system's calls are parameters; the lock is a parameter of a save.
use congine.Json.{
  Value, str, list, dict, Items, Fields, end, field, get, Result, ok, raise, type_error, sync_error,
  ◌>>=◌,
}
use congine.Prelude.{
  ℕ, String, ◌≡◌, refl, ap, ◌∙◌, Bool, true, false, not, Option, none, some, List, [], ◌∷◌, ltb,
  if◌then◌else◌,
}
use congine.Repository.Bounds.{bind_ok}
use congine.Repository.{mappings, items_of, mappings-items_of}

-- What `client.get`, `raise_for_status` and `response.json()` answer: an error of httpx, or the size of
-- the body with the value that it decodes to, `none` where it is no JSON.
pub data Response (F : Type 0) : Type 0 where
  http_error : Response F
  answered : ℕ → Option (Value F) → Response F

module _ {F : Type 0} where
  abbrev contracts_list : Option (Value F) → Result (Items F)
  contracts_list (some (list contracts)) = ok contracts
  contracts_list _ = raise sync_error

  -- `data["contracts"]` and what is asked of it; of what is no mapping it raises a TypeError
  abbrev body_contracts : Option (Value F) → Result (Items F)
  body_contracts none = raise sync_error
  body_contracts (some (dict fs)) = contracts_list (get "contracts" fs)
  body_contracts (some _) = raise type_error

  -- `fetch_active_contracts`
  unfoldable pub fetch_active_contracts : ℕ → Response F → Result (Items F)
  unfolding get
  fetch_active_contracts max_bytes http_error = raise sync_error
  fetch_active_contracts max_bytes (answered size body) =
      if ltb max_bytes size then raise sync_error else body_contracts body

-- A file at the snapshot's path.
pub record File : Type 0 where
  pub is_link : Bool
  pub owned : Bool
  pub content : String

-- `json.dump` into a text and `json.load` of a text; `os.replace`, and the calls before it that can
-- raise: `os.makedirs`, `tempfile.mkstemp`.
pub record System (F : Type 0) : Type 0 where
  pub json_dump : Value F → Result String
  pub json_load : String → Option (Value F)
  pub prepares : Result (Unit {0})
  pub mkstemp : Result (Unit {0})
  pub replaces : Result (Unit {0})

-- the end of `save_snapshot`, by the calls before the lock, whether it is acquired, and the write
abbrev finish_save :
    Result (Unit {0}) → Bool → Result String → Option File → Result (Unit {0}) × Option File
finish_save (raise e) acquired text file = (raise e, file)
finish_save (ok there) false text file = (ok tt, file)
finish_save (ok there) true (raise e) file = (raise e, file)
finish_save (ok there) true (ok content) file =
    (ok tt, some (record { is_link = false; owned = true; content = content }))

finish_save-expected :
    (prepared : Result (Unit {0})) (acquired : Bool) (made : Result (Unit {0}))
    (text : Result String) (moved : Result (Unit {0})) (file : Option File)
    → (finish_save prepared acquired (do m ← made; content ← text; r ← moved; ok content) file).0
      ≡ (do there ← prepared; if not acquired then ok tt else do m ← made; content ← text; moved)
finish_save-expected (raise e) acquired made text moved file = refl
finish_save-expected (ok t) false made text moved file = refl
finish_save-expected (ok t) true (raise e) text moved file = refl
finish_save-expected (ok t) true (ok m) (raise e) moved file = refl
finish_save-expected (ok t) true (ok m) (ok content) (raise e) file = refl
finish_save-expected (ok t) true (ok m) (ok content) (ok r) file = refl

module _ {F : Type 0} where
  -- `_validate_envelope`
  abbrev or_none : List (Fields F) → Option (List (Fields F))
  or_none [] = none
  or_none (c ∷ cs) = some (c ∷ cs)

  abbrev enveloped : Option (Value F) → Option (List (Fields F))
  enveloped (some (list contracts)) = or_none (mappings contracts)
  enveloped _ = none

  unfoldable pub validate_envelope : Option (Value F) → Option (List (Fields F))
  unfolding mappings get
  validate_envelope (some (dict fs)) = enveloped (get "contracts" fs)
  validate_envelope _ = none

  -- `load_snapshot`
  unfoldable pub load_snapshot : System F → Option File → Option (List (Fields F))
  unfolding validate_envelope
  load_snapshot sys none = none
  load_snapshot sys (some file) =
      if file.is_link
      then none
      else if not file.owned
      then none
      else validate_envelope (sys.json_load file.content)

  -- the envelope of `save_snapshot`
  abbrev pub envelope : String → List (Fields F) → Value F
  envelope fetched_at contracts = dict (
      field "version" (str "1.0")
        (field "contracts" (list (items_of contracts)) (field "fetched_at" (str fetched_at) end)))

  -- the text at the temporary path, once it is moved to the snapshot's
  written : System F → Value F → Result String
  written sys snapshot = do
    made ← sys.mkstemp
    content ← sys.json_dump snapshot
    moved ← sys.replaces
    ok content

  -- `save_snapshot`, given whether the lock is acquired: the file at the path afterwards
  unfoldable pub save_snapshot :
      System F → Bool → String → List (Fields F) → Option File → Result (Unit {0}) × Option File
  unfolding written
  save_snapshot sys acquired fetched_at contracts file =
      finish_save sys.prepares acquired (written sys (envelope fetched_at contracts)) file

  -- what is expected of a save: its answer, and what becomes of the file and of the next load
  abbrev pub expected : System F → Bool → String → List (Fields F) → Result (Unit {0})
  expected sys acquired fetched_at contracts = do
    there ← sys.prepares
    if not acquired then ok tt else do
      made ← sys.mkstemp
      content ← sys.json_dump (envelope fetched_at contracts)
      sys.replaces

  abbrev pub Saved :
      System F → Bool → List (Fields F) → Option File → Result (Unit {0}) → Option File → Type 0
  Saved sys acquired contracts before (raise e) after = after ≡ before
  Saved sys true contracts before (ok there) after = load_snapshot sys after ≡ or_none contracts
  Saved sys false contracts before (ok there) after = after ≡ before

  Saved-finish_save :
      (sys : System F) (contracts : List (Fields F)) (before : Option File)
      (prepared : Result (Unit {0})) (acquired : Bool) (text : Result String) {snapshot : Value F}
      → ((content : String) → text ≡ ok content → sys.json_load content ≡ some snapshot)
      → validate_envelope (some snapshot) ≡ or_none contracts
      → Saved sys acquired contracts before
          (finish_save prepared acquired text before).0
          (finish_save prepared acquired text before).1
  unfolding load_snapshot
  Saved-finish_save sys contracts before (raise e) acquired text loads shape = refl
  Saved-finish_save sys contracts before (ok there) false text loads shape = refl
  Saved-finish_save sys contracts before (ok there) true (raise e) loads shape = refl
  Saved-finish_save sys contracts before (ok there) true (ok content) loads shape =
      rw (loads content refl) shape

  written-ok :
      (sys : System F) (snapshot : Value F) {content : String}
      → written sys snapshot ≡ ok content
      → sys.json_dump snapshot ≡ ok content
  unfolding written
  written-ok sys snapshot h =
      let (made, h0, h1) = bind_ok sys.mkstemp _ h in
      let (text, dumped, h2) = bind_ok (sys.json_dump snapshot) _ h1 in
      let (moved, h3, h4) = bind_ok sys.replaces _ h2 in dumped ∙ h4

  -- A snapshot round trip: where `json.load` reads back the envelope that `json.dump` writes, a save
  -- answers as its calls do; after a save under the lock, a load returns the contracts that were
  -- saved, or `None` if there are none; and a save that raises, or that finds the lock busy, leaves
  -- the file at the snapshot's path as it was.
  pub save-load :
      (sys : System F) (acquired : Bool) (fetched_at : String) (contracts : List (Fields F))
      (before : Option File)
      → ((content : String)
          → sys.json_dump (envelope fetched_at contracts) ≡ ok content
          → sys.json_load content ≡ some (envelope fetched_at contracts))
      → let (answer, after) = save_snapshot sys acquired fetched_at contracts before in
        (answer ≡ expected sys acquired fetched_at contracts)
        × Saved sys acquired contracts before answer after
  unfolding save_snapshot validate_envelope get
  save-load sys acquired fetched_at contracts before loads = (
    unfold written in
        finish_save-expected sys.prepares acquired sys.mkstemp
          (sys.json_dump (envelope fetched_at contracts)) sys.replaces before,
    Saved-finish_save sys contracts before sys.prepares acquired
        (written sys (envelope fetched_at contracts))
        (λ content h. loads content (written-ok sys (envelope fetched_at contracts) h))
        (ap or_none (mappings-items_of contracts)),
  )
