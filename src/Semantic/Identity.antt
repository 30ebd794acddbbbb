-- ===== src/Semantic/Identity.antt =====
-- `own_and_audit`, `prepare_identity` and `preparation_key` of
-- libs/congine-sdk/src/congine_core/infrastructure/schema_preparation_cache.py. Values are trees
-- here, so there is no cycle to refuse and a snapshot is the tree itself. Whether a float is finite,
-- and the digest of the canonical JSON text, are parameters.
use congine.Json.{
  int, float, Value, null, bool, num, str, list, dict, Items, nil, cons, Fields, end, field,
}
use congine.Prelude.{
  ℕ, String, Bool, true, false, Option, none, some, ◌≡◌, arith, Eq, ◌==◌, ◌&&◌, string_eq, nat_eq,
  ◌>>=◌, if◌then◌else◌, ◌↔◌,
}

-- `math.isfinite`, and `content_digest(canonical_blob(v))`.
pub record Canon (F : Type 0) : Type 0 where
  pub is_finite : F → Bool
  pub digest : Value F → String

-- `CacheKey`: digest, validator class, format policy, cache version
pub record CacheKey : Type 0 where
  pub digest : String
  pub validator_cls : ℕ
  pub format_checking : Bool
  pub version : ℕ

-- `CHECK_SCHEMA_CACHE_VERSION`
abbrev pub cache_version : ℕ
cache_version = 1

abbrev pub same_bool : Bool → Bool → Bool
same_bool true b = b
same_bool false true = false
same_bool false false = true

abbrev pub same_key : CacheKey → CacheKey → Bool
same_key j k =
    (j.digest == k.digest && j.validator_cls == k.validator_cls)
    && (same_bool j.format_checking k.format_checking && j.version == k.version)

CacheKey-ext :
    (j k : CacheKey)
    → j.digest ≡ k.digest
    → j.validator_cls ≡ k.validator_cls
    → j.format_checking ≡ k.format_checking
    → j.version ≡ k.version
    → j ≡ k
CacheKey-ext j k d c f v i = record {
  digest = d i;
  validator_cls = c i;
  format_checking = f i;
  version = v i;
}

pub same_key_iff : (j k : CacheKey) → (same_key j k ≡ true) ↔ (j ≡ k)
same_key_iff j k = (
  λ h.
      CacheKey-ext j k (ground (arith, h, string_eq.beq_iff j.digest k.digest)) (ground (arith, h))
        (ground (arith, h)) (ground (arith, h)),
  λ h. ground (arith, h, string_eq.beq_iff j.digest k.digest),
)

instance abbrev pub key_eq : Eq CacheKey
key_eq = record { beq = same_key; beq_iff = same_key_iff }

-- `preparation_key`
unfoldable pub preparation_key : String → ℕ → Bool → CacheKey
preparation_key digest validator_cls format_checking = record {
  digest = digest;
  validator_cls = validator_cls;
  format_checking = format_checking;
  version = cache_version;
}

module _ {F : Type 0} (canon : Canon F) where
  -- `own_and_audit`: `none` where it answers that the content is not cacheable
  unfoldable mutual
    pub own : Value F → Option (Value F)
    own null = some null
    own (bool b) = some (bool b)
    own (num (int z)) = some (num (int z))
    own (num (float x)) = if canon.is_finite x then some (num (float x)) else none
    own (str s) = some (str s)
    own (list xs) = do items ← own_items xs; some (list items)
    own (dict fs) = do owned ← own_fields fs; some (dict owned)

    pub own_items : Items F → Option (Items F)
    own_items nil = some nil
    own_items (cons x xs) = do child ← own x; rest ← own_items xs; some (cons child rest)

    pub own_fields : Fields F → Option (Fields F)
    own_fields end = some end
    own_fields (field k v fs) = do child ← own v; rest ← own_fields fs; some (field k child rest)

  -- `prepare_identity`
  unfoldable pub prepare_identity : Value F → Value F × Option String
  unfolding own
  prepare_identity schema = elim (own schema) [
    | none ↦ (schema, none)
    | some snapshot ↦ (snapshot, some (canon.digest snapshot))
  ]
