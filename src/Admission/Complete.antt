-- ===== src/Admission/Complete.antt =====
-- `_walk_subschemas` of contract_admission.py misses no subschema, however deep.
use congine.Admission.Fuel.{get-depth, le-larger, walk_subschemas-enough}
use congine.Admission.Walk.{
  depth, depth_items, depth_fields, indexed, named, value_child, list_children, map_children, over,
  children_of, concat_map, walk_subschemas, subschemas, schema_valued, schema_list_valued,
  schema_map_valued,
}
use congine.Json.{
  Value, list, dict, Items, Fields, get, InItems, first, later, InFields, here, there,
}
use native.Mathlib.Nat.{le_trans}
use congine.Prelude.{
  ℕ, suc, ◌+◌, ◌-◌, ◌≤◌, ◌≡◌, sym, ap, ◌∙◌, subst, String, Option, some, List, [], ◌∷◌, ◌++◌, arith,
  ◌==◌, string_eq, true, ◌⊎◌, inl, inr, contains, Bool-cases, ◌⧺◌,
}

-- Keywords under which JSON Schema puts one schema, a list of schemas, and a mapping of schemas. Its
-- `additionalItems`, `contentSchema` and `dependencies` are not among them.
abbrev pub schema_keywords : List String
schema_keywords =
    "additionalProperties" ∷ "contains" ∷ "else" ∷ "if" ∷ "items" ∷ "not" ∷ "propertyNames" ∷ "then"
    ∷ "unevaluatedItems" ∷ "unevaluatedProperties" ∷ []

abbrev pub list_keywords : List String
list_keywords = "allOf" ∷ "anyOf" ∷ "items" ∷ "oneOf" ∷ "prefixItems" ∷ []

abbrev pub mapping_keywords : List String
mapping_keywords =
    "$defs" ∷ "definitions" ∷ "dependentSchemas" ∷ "patternProperties" ∷ "properties" ∷ []

-- A member of a list.
pub data At {A : Type 0} (x : A) : List A → Type 0 where
  at_head : {xs : List A} → At x (x ∷ xs)
  at_tail : {y : A} {xs : List A} → At x xs → At x (y ∷ xs)

module _ {F : Type 0} where
  -- A schema that stands in another one, right below it.
  pub data Child (node : Fields F) : Fields F → Type 0 where
    under :
        (key : String) {child : Fields F}
        → contains key schema_keywords ≡ true
        → get key node ≡ some (dict child)
        → Child node child
    listed :
        (key : String) {child : Fields F} {xs : Items F}
        → contains key list_keywords ≡ true
        → get key node ≡ some (list xs)
        → InItems (dict child) xs
        → Child node child
    mapped :
        (key name : String) {child fs : Fields F}
        → contains key mapping_keywords ≡ true
        → get key node ≡ some (dict fs)
        → InFields name (dict child) fs
        → Child node child

  -- A schema itself, and those in it.
  pub data Subschema : Fields F → Fields F → Type 0 where
    itself : {node : Fields F} → Subschema node node
    inside :
        {node child sub : Fields F} → Child node child → Subschema child sub → Subschema node sub

-- A place of a value in what the walk visits: it stands there with some path.
abbrev pub Visits : {A : Type 0} → List (String × A) → A → Type 0
Visits places v = (path : String) × At (path, v) places

module _ {A : Type 0} where
  append-left : {x : A} {xs : List A} (ys : List A) → At x xs → At x (xs ++ ys)
  append-left ys at_head = at_head
  append-left ys (at_tail i) = at_tail (append-left ys i)

  append-right : {x : A} (xs : List A) {ys : List A} → At x ys → At x (xs ++ ys)
  append-right [] i = i
  append-right (y ∷ xs) i = at_tail (append-right xs i)

concat_map-At :
    {A B : Type 0} {x : A} {y : B} {xs : List A} (f : A → List B)
    → At x xs
    → At y (f x)
    → At y (concat_map f xs)
concat_map-At f (at_head {xs}) i = append-left (concat_map f xs) i
concat_map-At f (at_tail {y = z} j) i = append-right (f z) (concat_map-At f j i)

in_schema_valued :
    (key : String) → contains key schema_keywords ≡ true → contains key schema_valued ≡ true
unfolding contains
in_schema_valued key h = ground (arith, h)

in_list_valued :
    (key : String)
    → contains key list_keywords ≡ true
    → (contains key schema_list_valued ≡ true) ⊎ (contains key ("items" ∷ []) ≡ true)
unfolding contains
in_list_valued key h = elim (Bool-cases ("items" == key)) [
  | inl items ↦ inr (ground (arith, items))
  | inr other ↦ inl (ground (arith, h, other))
]

in_map_valued :
    (key : String) → contains key mapping_keywords ≡ true → contains key schema_map_valued ≡ true
unfolding contains
in_map_valued key h = ground (arith, h)

spare : (m n : ℕ) → m ≤ n → (n - m) + m ≡ n
spare m n h = omega (arith, h)

module _ {F : Type 0} where
  indexed-Visits :
      (path : String) {v : Value F} {xs : Items F} (n : ℕ)
      → InItems v xs
      → Visits (indexed path n xs) v
  unfolding indexed
  indexed-Visits path n first = (_, at_head)
  indexed-Visits path n (later i) = let (p, j) = indexed-Visits path (suc n) i in (p, at_tail j)

  named-Visits :
      (path : String) {name : String} {v : Value F} {fs : Fields F}
      → InFields name v fs
      → Visits (named path fs) v
  unfolding named
  named-Visits path here = (_, at_head)
  named-Visits path (there i) = let (p, j) = named-Visits path i in (p, at_tail j)

  over-Visits :
      (children : String → Option (Value F) → List (String × Value F)) (path key : String)
      (keys : List String) (node : Fields F) {v : Value F}
      → contains key keys ≡ true
      → ((p : String) → Visits (children p (get key node)) v)
      → Visits (over children path keys node) v
  unfolding over contains
  over-Visits children path key [] node h visits = absurd (ground (arith, h))
  over-Visits children path key (k ∷ keys) node {v} h visits = elim (Bool-cases (k == key)) [
    | inl same ↦
        let e : key ≡ k = sym ((string_eq.beq_iff k key).0 same) in
        let (p, i) =
          subst (λ key. Visits (children ((path ⧺ ".") ⧺ k) (get key node)) v) e
            (visits ((path ⧺ ".") ⧺ k)) in
        (p, append-left _ i)
    | inr other ↦
        let (p, i) = over-Visits children path key keys node (ground (arith, h, other)) visits in
        (p, append-right _ i)
  ]

  children_of-Visits :
      (path : String) (node : Fields F) {child : Fields F}
      → Child node child
      → Visits (children_of path node) (dict child)
  unfolding children_of
  children_of-Visits path node {child} (under key k e) =
      let (p, i) =
        over-Visits value_child path key schema_valued node (in_schema_valued key k)
          (λ p. subst (λ o. Visits (value_child p o) (dict child)) (sym e) (p, at_head)) in
      (p, append-left _ i)
  children_of-Visits path node {child} (listed key k e i) = elim (in_list_valued key k) [
    | inl among ↦
        let (p, j) = over-Visits list_children path key schema_list_valued node among items in
        (p, append-right (over value_child path schema_valued node) (append-left _ j))
    | inr among ↦
        let (p, j) = over-Visits list_children path key ("items" ∷ []) node among items in
        (
          p,
          append-right (over value_child path schema_valued node) (
              append-right (over list_children path schema_list_valued node)
                (append-right (over map_children path schema_map_valued node) j)),
        )
  ]
    where
      items : (p : String) → Visits (list_children p (get key node)) (dict child)
      items p = subst (λ o. Visits (list_children p o) (dict child)) (sym e) (indexed-Visits p 0 i)
  children_of-Visits path node {child} (mapped key name k e i) =
      let (p, j) =
        over-Visits map_children path key schema_map_valued node (in_map_valued key k)
          (λ p. subst (λ o. Visits (map_children p o) (dict child)) (sym e) (named-Visits p i)) in
      (
        p,
        append-right (over value_child path schema_valued node)
            (append-right (over list_children path schema_list_valued node) (append-left _ j)),
      )

  item-depth : {v : Value F} {xs : Items F} → InItems v xs → depth v ≤ depth_items xs
  unfolding depth
  item-depth (first {xs}) = (le-larger _ (depth_items xs)).0
  item-depth (later {w} {xs} i) = le_trans (item-depth i) (le-larger (depth w) (depth_items xs)).1

  entry-depth :
      {name : String} {v : Value F} {fs : Fields F} → InFields name v fs → depth v ≤ depth_fields fs
  unfolding depth
  entry-depth (here {fs}) = (le-larger _ (depth_fields fs)).0
  entry-depth (there {j} {w} {fs} i) =
      le_trans (entry-depth i) (le-larger (depth w) (depth_fields fs)).1

  child-depth : {node child : Fields F} → Child node child → depth (dict child) ≤ depth_fields node
  unfolding depth
  child-depth {node} (under key k e) = get-depth key node e
  child-depth {node} (listed key k e i) =
      le_trans (item-depth i) (omega (arith, get-depth key node e))
  child-depth {node} (mapped key name k e i) =
      le_trans (entry-depth i) (omega (arith, get-depth key node e))

  walk-Visits :
      (path : String) {node sub : Fields F}
      → Subschema node sub
      → Visits (walk_subschemas (depth (dict node)) (path, dict node)) sub
  unfolding walk_subschemas depth
  walk-Visits path itself = (path, at_head)
  walk-Visits path {node} {sub} (inside {child = child} c s) =
      let (p, i) = children_of-Visits path node c in
      let (q, j) = walk-Visits p s in
      let more : walk_subschemas (depth_fields node) (p, dict child)
          ≡ walk_subschemas (depth (dict child)) (p, dict child) =
        ap (λ n. walk_subschemas n (p, dict child))
          (sym (spare (depth (dict child)) (depth_fields node) (child-depth c)))
        ∙ walk_subschemas-enough (depth_fields node - depth (dict child)) p (dict child) in
      (
        q,
        at_tail (
            concat_map-At (walk_subschemas (depth_fields node)) i
              (subst (At (q, sub)) (sym more) j)),
      )

pub subschemas_complete :
    {F : Type 0} (schema : Fields F) {sub : Fields F}
    → Subschema schema sub
    → Visits (subschemas schema) sub
unfolding subschemas
subschemas_complete schema s = walk-Visits "<root>" s
