-- ===== src/LfuCache/Contents.antt =====
-- Where the entries of the cache come from: none but puts make any.
use congine.Dict
use congine.Dict.{get-put, get-remove}
use congine.LfuCache.{
  LfuCache, Buckets, pop_first, ttl_of, increment_freq, evict_from, evict_rescan, evict_at,
  evict_lfu, insert_new, put_with, put, Bucket, evict_key, evict_keys, sweep_expired, expired_keys,
  clear, get, is_expired,
}
use congine.Prelude.{
  ℕ, ◌+◌, String, ◌≡◌, refl, sym, ap, ◌∙◌, subst, ◌⊎◌, inl, inr, Bool, true, false, Option, none,
  some, List, [], ◌∷◌, arith, ◌>>=◌, leb, nat_beq, string_eq, nat_eq, ◌==◌, Bool-cases,
  Option-cases, if◌then◌else◌,
}

bind_some :
    {A B : Type 0} (x : Option A) (f : A → Option B) {b : B}
    → (x >>= f) ≡ some b
    → (a : A) × (x ≡ some a) × (f a ≡ some b)
bind_some none f h = absurd (ground (arith, h))
bind_some (some a) f h = (a, refl, h)

some_inj : {A : Type 0} {a b : A} → Path (Option A) (some a) (some b) → a ≡ b
some_inj h = ground (arith, h)

no_answer : {A : Type 0} {a : A} → Path (Option A) none (some a) → ⊥
no_answer h = ground (arith, h)

module _ {V : Type 0} where
  -- whatever the second cache holds, the first one holds
  unfoldable pub Within : LfuCache V → LfuCache V → Type 0
  Within c c' =
      (k : String) (entry : V × ℕ)
      → Dict.get k c'.key_to_value ≡ some entry
      → Dict.get k c.key_to_value ≡ some entry

  increment_freq-values :
      (c : LfuCache V) (key : String) {c' : LfuCache V}
      → increment_freq c key ≡ some c'
      → c.key_to_value ≡ c'.key_to_value
  unfolding increment_freq
  increment_freq-values c key h =
      let (freq, _, h1) = bind_some (Dict.get key c.key_to_freq) _ h in
      let (bucket, _, h2) = bind_some (Dict.get freq c.freq_to_keys) _ h1 in
      let (_, _, h3) = bind_some (Dict.get key bucket) _ h2 in
      ap (λ x. x.key_to_value) (some_inj h3)

  removed-Within :
      (key k : String) (d : Dict.Dict String (V × ℕ)) (entry : V × ℕ)
      → Dict.get k (Dict.remove key d) ≡ some entry
      → Dict.get k d ≡ some entry
  removed-Within key k d entry h = ground (arith, h, get-remove key k d)

  evict_from-Within :
      (c : LfuCache V) (least : ℕ) (bucket : Bucket) {c' : LfuCache V}
      → evict_from c least bucket ≡ some c'
      → Within c c'
  unfolding evict_from Within
  evict_from-Within c least bucket h k entry found =
      let (first, _, h1) = bind_some (pop_first bucket) _ h in
      removed-Within first.0 k c.key_to_value entry
        (ap (λ x. Dict.get k x.key_to_value) (some_inj h1) ∙ found)

  evict_rescan-Within :
      (c : LfuCache V) (bs : Buckets) {c' : LfuCache V} → evict_rescan c bs ≡ some c' → Within c c'
  unfolding evict_rescan Within
  evict_rescan-Within c [] h k entry found =
      ap (λ x. Dict.get k x.key_to_value) (some_inj h) ∙ found
  evict_rescan-Within c (b ∷ bs) h k entry found =
      let (bucket, _, h1) = bind_some (Dict.get _ c.freq_to_keys) _ h in
      unfold Within in evict_from-Within c _ bucket h1 k entry found

  evict_lfu-Within : (c : LfuCache V) {c' : LfuCache V} → evict_lfu c ≡ some c' → Within c c'
  unfolding evict_lfu
  evict_lfu-Within c h = go (Dict.get c.min_freq c.freq_to_keys) h
    where
      go : (b : Option Bucket) {c' : LfuCache V} → evict_at c b ≡ some c' → Within c c'
      go none g = unfold evict_at in evict_rescan-Within c c.freq_to_keys g
      go (some []) g = unfold evict_at in evict_rescan-Within c c.freq_to_keys g
      go (some (k ∷ ks)) g = unfold evict_at in evict_from-Within c c.min_freq (k ∷ ks) g

  put_entry :
      (key k : String) (given entry : V × ℕ) (d : Dict.Dict String (V × ℕ))
      → Dict.get k (Dict.put key given d) ≡ some entry
      → (given ≡ entry) ⊎ (Dict.get k d ≡ some entry)
  put_entry key k given entry d h = elim (Bool-cases (key == k)) [
    | inl same ↦ inl (ground (arith, h, same, get-put key k given d))
    | inr other ↦ inr (ground (arith, h, other, get-put key k given d))
  ]

  make_room-Within :
      (full : Bool) (c : LfuCache V) {c' : LfuCache V}
      → (if full then evict_lfu c else some c) ≡ some c'
      → Within c c'
  make_room-Within true c h = evict_lfu-Within c h
  make_room-Within false c {c'} h =
      unfold Within in
      λ k entry found. subst (λ x. Dict.get k x.key_to_value ≡ some entry) (sym (some_inj h)) found

  put_with-entry :
      (c : LfuCache V) (key : String) (schema : V) (expire_at : ℕ) {c' : LfuCache V}
      → put_with c key schema expire_at ≡ some c'
      → (k : String) (entry : V × ℕ) → Dict.get k c'.key_to_value ≡ some entry
      → ((schema, expire_at) ≡ entry) ⊎ (Dict.get k c.key_to_value ≡ some entry)
  unfolding put_with insert_new Within
  put_with-entry c key schema expire_at {c'} h k entry found =
      elim (Bool-cases (Dict.has key c.key_to_value)) [
        | inl known ↦
            let h1 : increment_freq
                  (record c { key_to_value = Dict.put key (schema, expire_at) c.key_to_value }) key
                ≡ some c' =
              sym (rw (put_with, known) refl) ∙ h in
            put_entry key k (schema, expire_at) entry c.key_to_value
              (ap (Dict.get k) (
                  increment_freq-values
                    (record c { key_to_value = Dict.put key (schema, expire_at) c.key_to_value })
                    key h1)
                ∙ found)
        | inr new ↦
            let h1 : ((if leb c.capacity (Dict.size c.key_to_value) then evict_lfu c else some c)
                  >>= (λ x. some (insert_new x key schema expire_at)))
                ≡ some c' =
              sym (rw (put_with, new) refl) ∙ h in
            let (roomy, made, h2) =
              bind_some (if leb c.capacity (Dict.size c.key_to_value) then evict_lfu c else some c)
                _ h1 in
            elim (put_entry key k (schema, expire_at) entry roomy.key_to_value
              (ap (λ x. Dict.get k x.key_to_value) (some_inj h2) ∙ found)) [
                | inl given ↦ inl given
                | inr before ↦ inr (
                    make_room-Within (leb c.capacity (Dict.size c.key_to_value)) c made k entry
                      before)
              ]
      ]

  -- an entry after a put is the one put, or it was there
  pub put-entry :
      (now : ℕ) (c : LfuCache V) (key : String) (schema : V) (ttl : Option ℕ) {c' : LfuCache V}
      → put now c key schema ttl ≡ some c'
      → (k : String) (entry : V × ℕ) → Dict.get k c'.key_to_value ≡ some entry
      → ((schema, now + ttl_of c.ttl_seconds ttl) ≡ entry)
        ⊎ (Dict.get k c.key_to_value ≡ some entry)
  unfolding put
  put-entry now c key schema ttl {c'} h k entry found = elim (Bool-cases (nat_beq c.capacity 0)) [
    | inl off ↦
        let same : Path (Option (LfuCache V)) (some c) (some c') = sym (rw (put, off) refl) ∙ h in
        inr (subst (λ x. Dict.get k x.key_to_value ≡ some entry) (sym (some_inj same)) found)
    | inr on ↦
        put_with-entry c key schema (now + ttl_of c.ttl_seconds ttl) (sym (rw (put, on) refl) ∙ h) k
          entry found
  ]

  evict_key-Within : (c : LfuCache V) (key : String) → Within c (evict_key c key)
  unfolding evict_key Within
  evict_key-Within c key k entry found = removed-Within key k c.key_to_value entry found

  evict_keys-Within : (keys : List String) (c : LfuCache V) → Within c (evict_keys keys c)
  unfolding evict_keys Within
  evict_keys-Within [] c k entry found = found
  evict_keys-Within (key ∷ keys) c k entry found =
      evict_key-Within c key k entry (evict_keys-Within keys (evict_key c key) k entry found)

  pub sweep-Within : (clock : ℕ → ℕ) (c : LfuCache V) → Within c (sweep_expired clock c).0
  unfolding sweep_expired
  sweep-Within clock c = evict_keys-Within (expired_keys clock 0 c.key_to_value) c

  pub clear-Within : (c : LfuCache V) → Within c (clear c)
  unfolding clear Within Dict.get
  clear-Within c k entry found = absurd (ground (arith, found))

  get_absent :
      (now : ℕ) (c : LfuCache V) (key : String)
      → Dict.get key c.key_to_value ≡ none
      → get now c key ≡ some (c, none)
  unfolding get
  get_absent now c key absent = rw (get, absent) refl

  get_old :
      (now : ℕ) (c : LfuCache V) (key : String) {schema : V} {expire_at : ℕ}
      → Dict.get key c.key_to_value ≡ some (schema, expire_at)
      → is_expired now expire_at ≡ true
      → get now c key ≡ some (evict_key c key, none)
  unfolding get
  get_old now c key found old = rw (get, found, old) refl

  get_fresh :
      (now : ℕ) (c : LfuCache V) (key : String) {schema : V} {expire_at : ℕ}
      → Dict.get key c.key_to_value ≡ some (schema, expire_at)
      → is_expired now expire_at ≡ false
      → get now c key ≡ (increment_freq c key >>= λ x. some (x, some schema))
  unfolding get
  get_fresh now c key found fresh = rw (get, found, fresh) refl

  -- What a read leaves was there, and so was the schema that it returns.
  Read : LfuCache V → String → LfuCache V → Option V → Type 0
  Read c key c' none = Within c c'
  Read c key c' (some schema) =
      Within c c' × ((expire_at : ℕ) × (Dict.get key c.key_to_value ≡ some (schema, expire_at)))

  get-Read :
      (now : ℕ) (c : LfuCache V) (key : String) {c' : LfuCache V} {answer : Option V}
      → get now c key ≡ some (c', answer)
      → Read c key c' answer
  unfolding Read Within
  get-Read now c key {c'} {answer} h = elim (Option-cases (Dict.get key c.key_to_value)) [
    | inl absent ↦
        subst (λ (x : LfuCache V × Option V). Read c key x.0 x.1)
          (some_inj (sym (get_absent now c key absent) ∙ h)) (λ k entry found. found)
    | inr ((schema, expire_at), held) ↦ elim (Bool-cases (is_expired now expire_at)) [
      | inl old ↦
          subst (λ (x : LfuCache V × Option V). Read c key x.0 x.1)
            (some_inj (sym (get_old now c key held old) ∙ h))
            (unfold Within in evict_key-Within c key)
      | inr fresh ↦
          let (bumped, made, h1) =
            bind_some (increment_freq c key) (λ x. some (x, some schema))
              (sym (get_fresh now c key held fresh) ∙ h) in
          subst (λ (x : LfuCache V × Option V). Read c key x.0 x.1) (some_inj h1)
            (
              λ k entry found. ap (Dict.get k) (increment_freq-values c key made) ∙ found,
              (expire_at, held),
            )
    ]
  ]

  pub get-Within :
      (now : ℕ) (c : LfuCache V) (key : String) {c' : LfuCache V} {answer : Option V}
      → get now c key ≡ some (c', answer)
      → Within c c'
  unfolding Read
  get-Within now c key {answer = none} h = get-Read now c key h
  get-Within now c key {answer = some schema} h = (get-Read now c key h).0

  pub get-held :
      (now : ℕ) (c : LfuCache V) (key : String) {c' : LfuCache V} {schema : V}
      → get now c key ≡ some (c', some schema)
      → (expire_at : ℕ) × (Dict.get key c.key_to_value ≡ some (schema, expire_at))
  unfolding Read
  get-held now c key h = (get-Read now c key h).1
