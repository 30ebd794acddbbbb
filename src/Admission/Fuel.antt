-- ===== src/Admission/Fuel.antt =====
-- The walk over subschemas never runs out of fuel: the depth of the contract is enough.
use congine.Admission.Walk.{
  depth, depth_items, depth_fields, indexed, named, value_child, list_children, map_children, over,
  children_of, concat_map, walk_subschemas, schema_valued, schema_list_valued, schema_map_valued,
  larger,
}
use congine.Json.{Value, list, dict, Items, nil, cons, Fields, end, field, get}
use native.Mathlib.Nat.{le_trans}
use congine.Prelude.{
  ℕ, zero, suc, ◌+◌, ◌≤◌, ◌≡◌, refl, ap, ◌∙◌, String, Option, none, some, List, [], ◌∷◌, ◌++◌,
  arith, if◌then◌else◌, ◌==◌, string_eq, true, false, Bool-cases, inl, inr, subst,
}

larger-le : (a b n : ℕ) → larger a b ≤ n → (a ≤ n) × (b ≤ n)
larger-le a b n h = ground arith

pub le-larger : (a b : ℕ) → (a ≤ larger a b) × (b ≤ larger a b)
le-larger a b = ground arith

module _ {F : Type 0} where
  -- Nodes that are nested at most so deep.
  Within : ℕ → List (String × Value F) → Type 0
  Within n [] = Unit
  Within n ((path, v) ∷ cs) = (depth v ≤ n) × Within n cs

  pub get-depth :
      (k : String) (fs : Fields F) {v : Value F} → get k fs ≡ some v → depth v ≤ depth_fields fs
  unfolding get depth
  get-depth k end h = absurd (ground (arith, h))
  get-depth k (field j w fs) {v} h = elim (Bool-cases (j == k)) [
    | inl here ↦
        subst (λ x. depth x ≤ larger (depth w) (depth_fields fs)) (head_of here h)
          (le-larger (depth w) (depth_fields fs)).0
    | inr there ↦
        le_trans (get-depth k fs (tail_of there h)) (le-larger (depth w) (depth_fields fs)).1
  ]
    where
      head_of : j == k ≡ true → (if j == k then some w else get k fs) ≡ some v → w ≡ v
      head_of here e = ground (arith, here, e)

      tail_of : j == k ≡ false → (if j == k then some w else get k fs) ≡ some v → get k fs ≡ some v
      tail_of there e = ground (arith, there, e)

  append-Within :
      (n : ℕ) (xs ys : List (String × Value F)) → Within n xs → Within n ys → Within n (xs ++ ys)
  unfolding Within
  append-Within n [] ys a b = b
  append-Within n ((path, v) ∷ xs) ys (d, a) b = (d, append-Within n xs ys a b)

  indexed-Within :
      (n i : ℕ) (path : String) (xs : Items F) → depth_items xs ≤ n → Within n (indexed path i xs)
  unfolding Within indexed depth
  indexed-Within n i path nil h = tt
  indexed-Within n i path (cons x xs) h =
      let (own, others) = larger-le (depth x) (depth_items xs) n h in
      (own, indexed-Within n (suc i) path xs others)

  named-Within :
      (n : ℕ) (path : String) (fs : Fields F) → depth_fields fs ≤ n → Within n (named path fs)
  unfolding Within named depth
  named-Within n path end h = tt
  named-Within n path (field k v fs) h =
      let (own, others) = larger-le (depth v) (depth_fields fs) n h in
      (own, named-Within n path fs others)

  -- a loop's children of a value that is nested at most so deep
  abbrev Bounded : (String → Option (Value F) → List (String × Value F)) → Type 0
  Bounded children =
      (n : ℕ) (path : String) (o : Option (Value F))
      → ((v : Value F) → o ≡ some v → depth v ≤ n)
      → Within n (children path o)

  value_child-Bounded : Bounded value_child
  unfolding Within
  value_child-Bounded n path (some (dict fs)) h = (h (dict fs) refl, tt)
  value_child-Bounded n path none h = tt
  value_child-Bounded n path (some v) h = tt

  list_children-Bounded : Bounded list_children
  unfolding Within
  list_children-Bounded n path (some (list xs)) h =
      indexed-Within n 0 path xs (unfold depth in omega (arith, h (list xs) refl))
  list_children-Bounded n path none h = tt
  list_children-Bounded n path (some v) h = tt

  map_children-Bounded : Bounded map_children
  unfolding Within
  map_children-Bounded n path (some (dict fs)) h =
      named-Within n path fs (unfold depth in omega (arith, h (dict fs) refl))
  map_children-Bounded n path none h = tt
  map_children-Bounded n path (some v) h = tt

  over-Within :
      (children : String → Option (Value F) → List (String × Value F)) (path : String)
      (keys : List String) (node : Fields F)
      → Bounded children
      → Within (depth_fields node) (over children path keys node)
  unfolding over
  over-Within children path [] node b = unfold Within in tt
  over-Within children path (key ∷ keys) node b =
      append-Within (depth_fields node) _ _
        (b (depth_fields node) _ (get key node) (λ v e. get-depth key node e))
        (over-Within children path keys node b)

  children_of-Within :
      (path : String) (node : Fields F) → Within (depth_fields node) (children_of path node)
  unfolding children_of
  children_of-Within path node =
      let n = depth_fields node in
      append-Within n _ _ (over-Within value_child path schema_valued node value_child-Bounded) (
        append-Within n _ _
          (over-Within list_children path schema_list_valued node list_children-Bounded)
          (append-Within n _ _
            (over-Within map_children path schema_map_valued node map_children-Bounded)
            (over-Within list_children path ("items" ∷ []) node list_children-Bounded)))

  concat_map-same :
      {B : Type 0} (n m : ℕ) (f g : String × Value F → List B) (cs : List (String × Value F))
      → ((path : String) (v : Value F) → depth v ≤ n → f (path, v) ≡ g (path, v))
      → m ≤ n
      → Within m cs
      → concat_map f cs ≡ concat_map g cs
  unfolding Within
  concat_map-same n m f g [] same le w = refl
  concat_map-same n m f g ((path, v) ∷ cs) same le (d, w) =
      rw (same path v (omega (arith, d, le)), concat_map-same n m f g cs same le w)

  one_more :
      (fuel : ℕ) (path : String) (v : Value F)
      → depth v ≤ fuel
      → walk_subschemas (suc fuel) (path, v) ≡ walk_subschemas fuel (path, v)
  unfolding walk_subschemas depth
  one_more zero path (dict node) h = absurd (omega (arith, h))
  one_more (suc fuel) path (dict node) h =
      ap (λ rest. (path, node) ∷ rest)
        (concat_map-same fuel (depth_fields node) (walk_subschemas (suc fuel))
          (walk_subschemas fuel) (children_of path node) (λ p v d. one_more fuel p v d)
          (omega (arith, h)) (children_of-Within path node))
  one_more zero path v h = refl
  one_more (suc fuel) path v h = refl

  -- The depth of a contract is fuel enough for the walk over its subschemas: any more fuel visits
  -- the same nodes in the same order.
  pub walk_subschemas-enough :
      (extra : ℕ) (path : String) (v : Value F)
      → walk_subschemas (extra + depth v) (path, v) ≡ walk_subschemas (depth v) (path, v)
  walk_subschemas-enough zero path v = ap (λ n. walk_subschemas n (path, v)) (omega arith)
  walk_subschemas-enough (suc extra) path v =
      ap (λ n. walk_subschemas n (path, v)) (omega arith)
      ∙ (one_more (extra + depth v) path v (omega arith) ∙ walk_subschemas-enough extra path v)
