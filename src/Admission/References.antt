-- ===== src/Admission/References.antt =====
-- `_resolve_pointer`, `_reference_cycle` and `_check_references` of contract_admission.py. Python's
-- `int` of a text is not in the repository: `parse_int` stands for it, `none` where it raises.
use Prim.Native.Char.{code}
use congine.Admission.Grammar.{Finding, found, invalid_structure, unsupported_reference}
use congine.Admission.Walk.{concat_map, subschemas}
use congine.Json.{
  ℤ, pos, negsuc, Value, null, str, list, dict, Items, nil, cons, Fields, end, field, get,
}
use congine.Json.Builtins.{length_items}
use congine.Json.Text.{split, starts_with}
use congine.Prelude.{
  ℕ, zero, suc, ◌+◌, ◌-◌, String, Bool, true, false, not, ◌||◌, Option, none, some, List, [], ◌∷◌,
  leb, nat_beq, ◌⧺◌, ◌==◌, string_eq, contains, if◌then◌else◌,
}

-- `s.replace(ab, by)` for a text `ab` of two characters
unfoldable pub replace_pair : ℕ → ℕ → String → String → String
replace_pair a b by String.[] = ""
replace_pair a b by (String.◌∷◌ c String.[]) = String.◌∷◌ c ""
replace_pair a b by (String.◌∷◌ c (String.◌∷◌ d s)) =
    let past = by ⧺ replace_pair a b by s in
    let next = replace_pair a b by (String.◌∷◌ d s) in
    if nat_beq (code c) a
    then if nat_beq (code d) b then past else String.◌∷◌ c next
    else String.◌∷◌ c next

-- `_unescape_pointer_token`
unfoldable pub unescape_pointer_token : String → String
unfolding replace_pair
unescape_pointer_token token = replace_pair b'~' b'0' "~" (replace_pair b'~' b'1' "/" token)

-- `s[1:] if s.startswith(c) else s`, and whether it does
abbrev pub strip_char : ℕ → String → Option String
strip_char n String.[] = none
strip_char n (String.◌∷◌ c s) = if nat_beq (code c) n then some s else none

abbrev pub or_else {ℓ} : {A : Type ℓ} → A → Option A → A
or_else a none = a
or_else a (some b) = b

module _ {F : Type 0} where
  unfoldable pub nth : ℕ → Items F → Option (Value F)
  nth n nil = none
  nth zero (cons x xs) = some x
  nth (suc n) (cons x xs) = nth n xs

  -- `current[i]` of a list, counted from its end where `i` is negative; `none` for an IndexError
  unfoldable pub item_at : ℤ → Items F → Option (Value F)
  unfolding nth
  item_at (pos n) xs = nth n xs
  item_at (negsuc n) xs =
      if leb (suc n) (length_items xs) then nth (length_items xs - suc n) xs else none

  module _ (parse_int : String → Option ℤ) where
    abbrev pub item_named : Option ℤ → Items F → Option (Value F)
    item_named none xs = none
    item_named (some i) xs = item_at i xs

    -- one turn of the loop of `_resolve_pointer`; `none` is `_MISSING`
    unfoldable pub descend : String → Value F → Option (Value F)
    descend token (dict fs) = get token fs
    descend token (list xs) = item_named (parse_int token) xs
    descend token _ = none

    unfoldable pub descend_all : List String → Value F → Option (Value F)
    unfolding descend unescape_pointer_token
    descend_all [] current = some current
    descend_all (raw ∷ rest) current = elim (descend (unescape_pointer_token raw) current) [
      | none ↦ none
      | some v ↦ descend_all rest v
    ]

    abbrev pub follow : Option String → Value F → Option (Value F)
    follow none root = none
    follow (some path) root = descend_all (split b'/' path) root

    -- `_resolve_pointer`
    unfoldable pub resolve_pointer : Fields F → String → Option (Value F)
    unfolding descend_all
    resolve_pointer root pointer =
        if (pointer == "") || (pointer == "#")
        then some (dict root)
        else follow (strip_char b'/' (or_else pointer (strip_char b'#' pointer))) (dict root)

    -- the pointer that a loop of `_reference_cycle` goes on with
    abbrev pub next_ref : Option (Value F) → Option String
    next_ref (some (dict target)) = elim (get "$ref" target) [
      | some (str ref) ↦ if starts_with ref "#" then some ref else none
      | _ ↦ none
    ]
    next_ref _ = none

    -- `_reference_cycle`, with fuel for the pointers that it may still meet
    unfoldable pub reference_cycle_from : ℕ → List String → Fields F → String → Bool
    unfolding resolve_pointer starts_with
    reference_cycle_from zero seen root pointer = true
    reference_cycle_from (suc fuel) seen root pointer =
        if contains pointer seen then true else elim (next_ref (resolve_pointer root pointer)) [
          | none ↦ false
          | some next ↦ reference_cycle_from fuel (pointer ∷ seen) root next
        ]

    unfoldable mutual
      pub size : Value F → ℕ
      size (list xs) = suc (size_items xs)
      size (dict fs) = suc (size_fields fs)
      size _ = 1

      pub size_items : Items F → ℕ
      size_items nil = 0
      size_items (cons x xs) = size x + size_items xs

      pub size_fields : Fields F → ℕ
      size_fields end = 0
      size_fields (field k v fs) = size v + size_fields fs

    -- `_reference_cycle`: a pointer that it meets is the first one or stands in the contract.
    unfoldable pub reference_cycle : Fields F → String → Bool
    unfolding reference_cycle_from size
    reference_cycle root start = reference_cycle_from (suc (suc (size (dict root)))) [] root start

    -- the body of `_check_references` for one node
    abbrev pub check_ref : Fields F → String → Option (Value F) → List Finding
    check_ref schema path none = []
    check_ref schema path (some null) = []
    check_ref schema path (some (str ref)) =
        if not (starts_with ref "#")
        then found unsupported_reference (path ⧺ ".$ref")
        else elim (resolve_pointer schema ref) [
          | none ↦ found unsupported_reference (path ⧺ ".$ref")
          | some target ↦
              if reference_cycle schema ref
              then found unsupported_reference (path ⧺ ".$ref")
              else []
        ]
    check_ref schema path (some _) = found invalid_structure (path ⧺ ".$ref")

    -- `_check_references`
    unfoldable pub check_references : Fields F → List Finding
    unfolding subschemas starts_with resolve_pointer reference_cycle
    check_references schema =
        concat_map (λ (path, node). check_ref schema path (get "$ref" node)) (subschemas schema)
