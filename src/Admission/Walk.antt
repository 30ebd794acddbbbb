-- ===== src/Admission/Walk.antt =====
-- `_walk_subschemas` of contract_admission.py, with fuel for the depth of the schema.
use congine.Json.{Value, list, dict, Items, nil, cons, Fields, end, field, get}
use congine.Prelude.{ℕ, suc, String, Option, some, List, [], ◌∷◌, ◌++◌, ltb, if◌then◌else◌, ◌⧺◌}
use congine.Vocabulary.{show_ℕ}

abbrev pub schema_valued : List String
schema_valued =
    "items" ∷ "contains" ∷ "not" ∷ "if" ∷ "then" ∷ "else" ∷ "propertyNames" ∷ "additionalProperties"
    ∷ "unevaluatedItems" ∷ "unevaluatedProperties" ∷ []

abbrev pub schema_list_valued : List String
schema_list_valued = "allOf" ∷ "anyOf" ∷ "oneOf" ∷ "prefixItems" ∷ []

abbrev pub schema_map_valued : List String
schema_map_valued =
    "properties" ∷ "patternProperties" ∷ "$defs" ∷ "definitions" ∷ "dependentSchemas" ∷ []

abbrev pub larger : ℕ → ℕ → ℕ
larger a b = if ltb a b then b else a

-- what a loop yields, from what its body yields for each member
abbrev pub concat_map : {A B : Type 0} → (A → List B) → List A → List B
concat_map f [] = []
concat_map f (x ∷ xs) = f x ++ concat_map f xs

module _ {F : Type 0} where
  -- how deep a value is nested
  unfoldable mutual
    pub depth : Value F → ℕ
    depth (list xs) = suc (depth_items xs)
    depth (dict fs) = suc (depth_fields fs)
    depth _ = 0

    pub depth_items : Items F → ℕ
    depth_items nil = 0
    depth_items (cons x xs) = larger (depth x) (depth_items xs)

    pub depth_fields : Fields F → ℕ
    depth_fields end = 0
    depth_fields (field k v fs) = larger (depth v) (depth_fields fs)

  -- The nodes that a loop of the walk visits, with their paths.
  unfoldable pub indexed : String → ℕ → Items F → List (String × Value F)
  indexed path n nil = []
  indexed path n (cons x xs) = (((path ⧺ "[") ⧺ show_ℕ n) ⧺ "]", x) ∷ indexed path (suc n) xs

  unfoldable pub named : String → Fields F → List (String × Value F)
  named path end = []
  named path (field k v fs) = ((path ⧺ ".") ⧺ k, v) ∷ named path fs

  abbrev pub value_child : String → Option (Value F) → List (String × Value F)
  value_child path (some (dict fs)) = (path, dict fs) ∷ []
  value_child path _ = []

  abbrev pub list_children : String → Option (Value F) → List (String × Value F)
  list_children path (some (list xs)) = indexed path 0 xs
  list_children path _ = []

  abbrev pub map_children : String → Option (Value F) → List (String × Value F)
  map_children path (some (dict fs)) = named path fs
  map_children path _ = []

  -- a loop over keywords
  unfoldable pub over :
      (String → Option (Value F) → List (String × Value F))
      → String
      → List String
      → Fields F
      → List (String × Value F)
  over children path [] node = []
  over children path (key ∷ keys) node =
      children ((path ⧺ ".") ⧺ key) (get key node) ++ over children path keys node

  -- the four loops of `_walk_subschemas`
  unfoldable pub children_of : String → Fields F → List (String × Value F)
  unfolding over
  children_of path node =
      over value_child path schema_valued node
      ++ (over list_children path schema_list_valued node
          ++ (over map_children path schema_map_valued node
              ++ over list_children path ("items" ∷ []) node))

  -- `yield path, node` of a node and of what lies below it
  unfoldable pub walk_subschemas : ℕ → String × Value F → List (String × Fields F)
  unfolding children_of
  walk_subschemas (suc fuel) (path, dict node) =
      (path, node) ∷ concat_map (walk_subschemas fuel) (children_of path node)
  walk_subschemas _ _ = []

  -- the walk over a whole contract
  unfoldable pub subschemas : Fields F → List (String × Fields F)
  unfolding walk_subschemas
  subschemas schema = walk_subschemas (depth (dict schema)) ("<root>", dict schema)
