-- ===== src/LfuCache/Expiry.antt =====
-- The keys that a sweep finds expired: those that the readings of the clock make so.
use congine.Dict
use congine.LfuCache.{expired_keys}
use congine.Prelude.{
  ℕ, suc, ◌≤◌, ◌<◌, ◌≡◌, refl, subst, String, true, false, none, some, [], ◌∷◌, arith, contains,
  string_eq, ◌==◌, Bool-cases, inl, inr,
}

module _ {V : Type 0} where
  pub expired_keys_complete :
      (clock : ℕ → ℕ) (t i : ℕ) (k : String) (d : Dict.Dict String (V × ℕ)) (schema : V)
      (expire_at : ℕ)
      → ((n : ℕ) → t ≤ clock n)
      → Dict.get k d ≡ some (schema, expire_at)
      → expire_at ≤ t
      → contains k (expired_keys clock i d) ≡ true
  unfolding expired_keys Dict.get contains
  expired_keys_complete clock t i k [] schema expire_at later h old = cc
  expired_keys_complete clock t i k ((j, (s, e)) ∷ d) schema expire_at later h old =
      ground (arith, later i, expired_keys_complete clock t (suc i) k d schema expire_at later)

  expired_keys_absent :
      (clock : ℕ → ℕ) (i : ℕ) (k : String) (d : Dict.Dict String (V × ℕ))
      → Dict.get k d ≡ none
      → contains k (expired_keys clock i d) ≡ false
  unfolding expired_keys Dict.get contains
  expired_keys_absent clock i k [] h = refl
  expired_keys_absent clock i k ((j, (s, e)) ∷ d) h =
      ground (arith, h, expired_keys_absent clock (suc i) k d)

  pub expired_keys_sound :
      (clock : ℕ → ℕ) (u i : ℕ) (k : String) (d : Dict.Dict String (V × ℕ)) (schema : V)
      (expire_at : ℕ)
      → Dict.Distinct d
      → ((n : ℕ) → clock n ≤ u)
      → Dict.get k d ≡ some (schema, expire_at)
      → u < expire_at
      → contains k (expired_keys clock i d) ≡ false
  unfolding expired_keys Dict.get contains
  expired_keys_sound clock u i k [] schema expire_at distinct before h live = refl
  expired_keys_sound clock u i k ((j, (s, e)) ∷ d) schema expire_at (alone, distinct) before h
        live =
      elim (Bool-cases (j == k)) [
        | inl same ↦
            let here : j ≡ k = (string_eq.beq_iff j k).0 same in
            ground (
              arith,
              h,
              same,
              before i,
              live,
              expired_keys_absent clock (suc i) k d (subst (λ x. Dict.get x d ≡ none) here alone),
            )
        | inr other ↦ ground (
          arith,
          h,
          other,
          expired_keys_sound clock u (suc i) k d schema expire_at distinct before,
        )
      ]
