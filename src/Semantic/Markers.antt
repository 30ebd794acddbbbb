-- ===== src/Semantic/Markers.antt =====
-- What the preparation cache owns and keeps: snapshots are the schemas, and markers come from marks.
use congine.Json.{
  Value, null, bool, num, int, float, str, list, dict, Items, nil, cons, Fields, end, field, ok,
}
use congine.Prelude.{
  ℕ, ◌+◌, ◌≡◌, ◌⊎◌, refl, ap, true, none, some, List, [], ◌∷◌, ◌++◌, arith, Eq, ◌==◌, contains,
  Bool-cases, Option-cases, inl, inr, length, ltb,
}
use congine.Semantic.Cache.{PreparationCache, init, trim, without, move_to_end}
use congine.Semantic.Identity.{Canon, key_eq, own, own_items, own_fields, prepare_identity}

mutual
  unfolding own

  -- a snapshot is the content that was given
  pub own-same :
      {F : Type 0} (canon : Canon F) (v : Value F) {w : Value F} → own canon v ≡ some w → w ≡ v
  own-same canon null h = ground (arith, h)
  own-same canon (bool b) h = ground (arith, h)
  own-same canon (num (int z)) h = ground (arith, h)
  own-same canon (num (float x)) h = ground (arith, h)
  own-same canon (str s) h = ground (arith, h)
  own-same canon (list xs) h = elim (Option-cases (own_items canon xs)) [
    | inl absent ↦ absurd (ground (arith, h, absent))
    | inr (ys, e) ↦ ground (arith, h, e, own_items-same canon xs e)
  ]
  own-same canon (dict fs) h = elim (Option-cases (own_fields canon fs)) [
    | inl absent ↦ absurd (ground (arith, h, absent))
    | inr (gs, e) ↦ ground (arith, h, e, own_fields-same canon fs e)
  ]

  own_items-same :
      {F : Type 0} (canon : Canon F) (xs : Items F) {ys : Items F}
      → own_items canon xs ≡ some ys
      → ys ≡ xs
  own_items-same canon nil h = ground (arith, h)
  own_items-same canon (cons x xs) h = elim (Option-cases (own canon x)) [
    | inl absent ↦ absurd (ground (arith, h, absent))
    | inr (y, e) ↦ elim (Option-cases (own_items canon xs)) [
      | inl absent ↦ absurd (ground (arith, h, e, absent))
      | inr (ys, e') ↦ ground (arith, h, e, e', own-same canon x e, own_items-same canon xs e')
    ]
  ]

  own_fields-same :
      {F : Type 0} (canon : Canon F) (fs : Fields F) {gs : Fields F}
      → own_fields canon fs ≡ some gs
      → gs ≡ fs
  own_fields-same canon end h = ground (arith, h)
  own_fields-same canon (field k v fs) h = elim (Option-cases (own canon v)) [
    | inl absent ↦ absurd (ground (arith, h, absent))
    | inr (y, e) ↦ elim (Option-cases (own_fields canon fs)) [
      | inl absent ↦ absurd (ground (arith, h, e, absent))
      | inr (ys, e') ↦ ground (arith, h, e, e', own-same canon v e, own_fields-same canon fs e')
    ]
  ]

module _ {K : Type 0} ⦃e : Eq K⦄ where
  pub contains-without :
      (j k : K) (ks : List K) → contains j (without k ks) ≡ true → contains j ks ≡ true
  unfolding contains without
  contains-without j k [] h = h
  contains-without j k (i ∷ ks) h = ground (arith, h, contains-without j k ks)

  contains-snoc :
      (j k : K) (ks : List K)
      → contains j (ks ++ k ∷ []) ≡ true
      → (k == j ≡ true) ⊎ (contains j ks ≡ true)
  unfolding contains
  contains-snoc j k [] h = inl (ground (arith, h))
  contains-snoc j k (i ∷ ks) h = elim (Bool-cases (i == j)) [
    | inl here ↦ inr (ground (arith, here))
    | inr there ↦ elim (contains-snoc j k ks (ground (arith, h, there))) [
      | inl last ↦ inl last
      | inr before ↦ inr (ground (arith, before))
    ]
  ]

  pub contains-move_to_end :
      (j k : K) (ks : List K)
      → contains j (move_to_end k ks) ≡ true
      → (k == j ≡ true) ⊎ (contains j ks ≡ true)
  unfolding move_to_end
  contains-move_to_end j k ks h = elim (contains-snoc j k (without k ks) h) [
    | inl last ↦ inl last
    | inr before ↦ inr (contains-without j k ks before)
  ]

  pub contains-trim :
      (j : K) (ks : List K) (c : PreparationCache K)
      → contains j (trim ks c).entries ≡ true
      → contains j ks ≡ true
  unfolding contains trim
  contains-trim j [] c h = h
  contains-trim j (k ∷ ks) c h = elim (Bool-cases (ltb c.capacity (length (k ∷ ks)))) [
    | inl over ↦
        ground (arith, h, over, contains-trim j ks (record c { evictions = c.evictions + 1 }))
    | inr fits ↦ ground (arith, h, fits)
  ]

-- The snapshot is the schema, and its digest is the schema's where there is one.
pub identity-cases :
    {F : Type 0} (canon : Canon F) (v : Value F)
    → (prepare_identity canon v ≡ (v, none))
      ⊎ (prepare_identity canon v ≡ (v, some (canon.digest v)))
unfolding prepare_identity
identity-cases canon v = elim (Option-cases (own canon v)) [
  | inl plain ↦ inl (rw (prepare_identity, plain) refl)
  | inr (w, e) ↦
      inr (rw (prepare_identity, e) (ap (λ u. (u, some (canon.digest u))) (own-same canon v e)))
]

pub init-empty :
    (capacity : ℕ) {K : Type 0} {c : PreparationCache K} → init capacity ≡ ok c → c.entries ≡ []
unfolding init
init-empty capacity h = ground (arith, h)
