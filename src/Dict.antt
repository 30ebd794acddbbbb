-- ===== src/Dict.antt =====
-- Python's `dict` and `OrderedDict`: entries in insertion order, an update keeps its place.
use congine.Prelude.{
  ℕ, suc, ◌<◌, ◌≤◌, ◌≡◌, refl, Bool, true, false, Option, none, some, List, [], ◌∷◌, map, arith,
  length, Eq, ◌==◌, if◌then◌else◌, Bool-cases, inl, inr, is_some, is_empty, beq_refl,
}

abbrev pub Dict {ℓ} : Type ℓ → Type ℓ → Type ℓ
Dict K V = List (K × V)

module _ {ℓ} {K V : Type ℓ} where
  -- `d.keys()`
  abbrev pub keys : Dict K V → List K
  keys = map (λ x. x.0)

  -- `len(d)`
  abbrev pub size : Dict K V → ℕ
  size = length

  pub size-not_empty : (d : Dict K V) → 0 < size d → is_empty d ≡ false
  size-not_empty [] h = absurd (omega arith)
  size-not_empty (x ∷ d) h = refl

module _ {ℓ} {K V : Type ℓ} ⦃e : Eq K⦄ where
  -- `d.get(k)`
  unfoldable pub get : K → Dict K V → Option V
  get k [] = none
  get k ((j, v) ∷ d) = if j == k then some v else get k d

  -- `k in d`
  abbrev pub has : K → Dict K V → Bool
  has k d = is_some (get k d)

  -- `d[k] = v`
  unfoldable pub put : K → V → Dict K V → Dict K V
  put k v [] = (k, v) ∷ []
  put k v ((j, w) ∷ d) = if j == k then (j, v) ∷ d else (j, w) ∷ put k v d

  -- `d.pop(k, None)`
  unfoldable pub remove : K → Dict K V → Dict K V
  remove k [] = []
  remove k ((j, w) ∷ d) = let rest = remove k d in if j == k then rest else (j, w) ∷ rest

  pub get-put :
      (k j : K) (v : V) (d : Dict K V) → get j (put k v d) ≡ (if k == j then some v else get j d)
  unfolding get put
  get-put k j v [] = refl
  get-put k j v ((i, w) ∷ d) =
      ground (arith, e.beq_iff k j, e.beq_iff i k, e.beq_iff i j, get-put k j v d)

  pub get-remove :
      (k j : K) (d : Dict K V) → get j (remove k d) ≡ (if k == j then none else get j d)
  unfolding get remove
  get-remove k j [] = ground arith
  get-remove k j ((i, w) ∷ d) =
      ground (arith, e.beq_iff k j, e.beq_iff i k, e.beq_iff i j, get-remove k j d)

  pub size-put :
      (k : K) (v : V) (d : Dict K V) → size (put k v d) ≡ (if has k d then size d else suc (size d))
  unfolding get put
  size-put k v [] = refl
  size-put k v ((i, w) ∷ d) = ground (arith, size-put k v d)

  pub size-remove-le : (k : K) (d : Dict K V) → size (remove k d) ≤ size d
  unfolding remove
  size-remove-le k [] = omega arith
  size-remove-le k ((i, w) ∷ d) = ground (arith, size-remove-le k d)

  pub size-remove-lt : (k : K) (d : Dict K V) → has k d ≡ true → size (remove k d) < size d
  unfolding get remove
  size-remove-lt k [] h = ground arith
  size-remove-lt k ((i, w) ∷ d) h = ground (arith, size-remove-lt k d, size-remove-le k d)

  -- Each key stands once.
  abbrev pub Distinct : Dict K V → Type ℓ
  Distinct [] = Unit
  Distinct ((j, v) ∷ d) = (get j d ≡ none) × Distinct d

  pub put-Distinct : (k : K) (v : V) (d : Dict K V) → Distinct d → Distinct (put k v d)
  unfolding put get
  put-Distinct k v [] h = (refl, tt)
  put-Distinct k v ((j, w) ∷ d) (alone, h) = elim (Bool-cases (j == k)) [
    | inl same ↦ rw same (alone, h)
    | inr other ↦ rw other (
      ground (arith, get-put k j v d, alone, other, e.beq_iff k j, e.beq_iff j k),
      put-Distinct k v d h,
    )
  ]

  pub remove-Distinct : (k : K) (d : Dict K V) → Distinct d → Distinct (remove k d)
  unfolding remove get
  remove-Distinct k [] h = h
  remove-Distinct k ((j, w) ∷ d) (alone, h) = elim (Bool-cases (j == k)) [
    | inl same ↦ rw same (remove-Distinct k d h)
    | inr other ↦ rw other (ground (arith, get-remove k j d, alone), remove-Distinct k d h)
  ]

  pub has-get : (k : K) (d : Dict K V) → has k d ≡ true → (v : V) × (get k d ≡ some v)
  has-get k d h = ground arith

  pub has-not_empty : (k : K) (d : Dict K V) → has k d ≡ true → is_empty d ≡ false
  unfolding get
  has-not_empty k [] h = ground arith
  has-not_empty k (x ∷ d) h = refl

  pub first_key : (d : Dict K V) → is_empty d ≡ false → (k : K) × (has k d ≡ true)
  unfolding get
  first_key [] h = absurd (ground arith)
  first_key ((k, v) ∷ d) h = (k, rw (beq_refl k))
