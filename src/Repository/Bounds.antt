-- ===== src/Repository/Bounds.antt =====
-- How much the file repository reads.
use congine.Json.{Value, Fields, Result, ok, raise, ◌>>=◌}
use congine.Prelude.{
  ℕ, zero, suc, ◌-◌, ◌≤◌, String, ◌≡◌, refl, sym, ap, ◌∙◌, subst, ◌⊎◌, inl, inr, Option, none, some,
  List, [], ◌∷◌, ◌++◌, arith, length, take, ltb, Bool-cases,
}
use congine.Repository.Files.{
  Decoded, decoded, malformed, undecodable, Disk, Settings, extract, read, contracts_of,
  file_contracts, all_contracts, yaml_part, directory_contracts, fetch_active_contracts,
}

-- A contract among others.
pub data Among {A : Type 0} (x : A) : List A → Type 0 where
  here : {xs : List A} → Among x (x ∷ xs)
  there : {y : A} {xs : List A} → Among x xs → Among x (y ∷ xs)

Among-append : {A : Type 0} {x : A} (xs ys : List A) → Among x (xs ++ ys) → Among x xs ⊎ Among x ys
Among-append [] ys m = inr m
Among-append (y ∷ xs) ys here = inl here
Among-append (y ∷ xs) ys (there m) = elim (Among-append xs ys m) [
  | inl a ↦ inl (there a)
  | inr b ↦ inr b
]

take-within :
    {A : Type 0} (n : ℕ) (xs : List A) → length (take (suc n) xs) ≤ n → take (suc n) xs ≡ xs
take-within n [] h = refl
take-within zero (x ∷ xs) h = absurd (omega (arith, h))
take-within (suc n) (x ∷ xs) h = ap (λ rest. x ∷ rest) (take-within n xs (omega (arith, h)))

Among-nil : {A : Type 0} {x : A} → Among x [] → ⊥
Among-nil m = elim m [ ]

ok_inj : {A : Type 0} {a b : A} → Path (Result A) (ok a) (ok b) → a ≡ b
ok_inj h = ground (arith, h)

pub bind_ok :
    {A B : Type 0} (x : Result A) (f : A → Result B) {b : B}
    → (x >>= f) ≡ ok b
    → (a : A) × (x ≡ ok a) × (f a ≡ ok b)
bind_ok (ok a) f h = (a, refl, h)
bind_ok (raise e) f h = absurd (ground (arith, h))

read-some :
    (s : Settings) (stored : Option (List ℕ)) {raw : List ℕ}
    → read s stored ≡ some raw
    → (stored ≡ some raw) × (length raw ≤ s.max_file_bytes)
unfolding read
read-some s none h = absurd (ground (arith, h))
read-some s (some content) {raw} h =
    elim (Bool-cases (ltb s.max_file_bytes (length (take (suc s.max_file_bytes) content)))) [
      | inl over ↦ absurd (ground (arith, h, over))
      | inr fits ↦
          let same : take (suc s.max_file_bytes) content ≡ raw = ground (arith, h, fits) in
          let small : length (take (suc s.max_file_bytes) content) ≤ s.max_file_bytes =
            ground (arith, fits) in
          (
            ap some (sym (take-within s.max_file_bytes content small) ∙ same),
            subst (λ xs. length xs ≤ s.max_file_bytes) same small,
          )
    ]

module _ {F : Type 0} where
  -- A contract that a file of the bounded size holds.
  pub record Stems (s : Settings) (disk : Disk F) (paths : List String) (parse : List ℕ → Decoded F)
      (c : Fields F) : Type 0 where
    pub path : String
    pub content : List ℕ
    pub value : Value F
    pub listed : Among path paths
    pub stored : disk.bytes path ≡ some content
    pub small : length content ≤ s.max_file_bytes
    pub parsed : parse content ≡ decoded value
    pub extracted : Among c (extract value)

  listed_later :
      {s : Settings} {disk : Disk F} {path : String} {paths : List String}
      {parse : List ℕ → Decoded F} {c : Fields F}
      → Stems s disk paths parse c
      → Stems s disk (path ∷ paths) parse c
  listed_later stems = record {
    path = stems.path;
    content = stems.content;
    value = stems.value;
    listed = there stems.listed;
    stored = stems.stored;
    small = stems.small;
    parsed = stems.parsed;
    extracted = stems.extracted;
  }

  contracts_of-Among :
      (d : Decoded F) {cs : List (Fields F)} {c : Fields F}
      → contracts_of d ≡ ok cs
      → Among c cs
      → (v : Value F) × (d ≡ decoded v) × Among c (extract v)
  contracts_of-Among (decoded v) {cs} {c} h m =
      (v, refl, subst (λ xs. Among c xs) (sym (ok_inj h)) m)
  contracts_of-Among malformed {cs} {c} h m =
      absurd (Among-nil (subst (λ xs. Among c xs) (sym (ok_inj h)) m))
  contracts_of-Among undecodable h m = absurd (ground (arith, h))

  file_contracts-Among :
      (parse : List ℕ → Decoded F) (raw : Option (List ℕ)) {cs : List (Fields F)} {c : Fields F}
      → file_contracts parse raw ≡ ok cs
      → Among c cs
      → (content : List ℕ) × (v : Value F) × (raw ≡ some content)
        × (parse content ≡ decoded v)
        × Among c (extract v)
  unfolding file_contracts
  file_contracts-Among parse none {cs} {c} h m =
      absurd (Among-nil (subst (λ xs. Among c xs) (sym (ok_inj h)) m))
  file_contracts-Among parse (some raw) h m =
      let (v, e, a) = contracts_of-Among (parse raw) h m in (raw, v, refl, e, a)

  all_contracts-Stems :
      (s : Settings) (disk : Disk F) (parse : List ℕ → Decoded F) (paths : List String)
      {cs : List (Fields F)} {c : Fields F}
      → all_contracts s disk.bytes parse paths ≡ ok cs
      → Among c cs
      → Stems s disk paths parse c
  unfolding all_contracts
  all_contracts-Stems s disk parse [] {cs} {c} h m =
      absurd (Among-nil (subst (λ xs. Among c xs) (sym (ok_inj h)) m))
  all_contracts-Stems s disk parse (path ∷ paths) {cs} {c} h m =
      let (these, got, h1) = bind_ok (file_contracts parse (read s (disk.bytes path))) _ h in
      let (more, rest, h2) = bind_ok (all_contracts s disk.bytes parse paths) _ h1 in
      elim (Among-append these more (subst (λ xs. Among c xs) (sym (ok_inj h2)) m)) [
        | inl a ↦
            let (content, v, raw, parsed, extracted) =
              file_contracts-Among parse (read s (disk.bytes path)) got a in
            let (stored, small) = read-some s (disk.bytes path) raw in
            record {
              path = path;
              content = content;
              value = v;
              listed = here;
              stored = stored;
              small = small;
              parsed = parsed;
              extracted = extracted;
            }
        | inr b ↦ listed_later (all_contracts-Stems s disk parse paths rest b)
      ]

  yaml_part-Stems :
      (s : Settings) (disk : Disk F) (yaml_paths : Option (List String)) {cs : List (Fields F)}
      {c : Fields F}
      → yaml_part s disk yaml_paths ≡ ok cs
      → Among c cs
      → (yaml : List String) × (yaml_paths ≡ some yaml)
        × Stems s disk
            (take (s.max_contract_files - length (take s.max_contract_files disk.json_paths)) yaml)
            disk.safe_load
            c
  yaml_part-Stems s disk none {cs} {c} h m =
      absurd (Among-nil (subst (λ xs. Among c xs) (sym (ok_inj h)) m))
  yaml_part-Stems s disk (some yaml) h m =
      (yaml, refl, all_contracts-Stems s disk disk.safe_load _ h m)

  directory_contracts-Stems :
      (s : Settings) (disk : Disk F) {cs : List (Fields F)} {c : Fields F}
      → directory_contracts s disk ≡ ok cs
      → Among c cs
      → Stems s disk (take s.max_contract_files disk.json_paths) disk.loads c
        ⊎ ((yaml : List String) × (disk.yaml_paths ≡ some yaml)
            × Stems s disk
                (take
                  (s.max_contract_files - length (take s.max_contract_files disk.json_paths))
                  yaml)
                disk.safe_load
                c)
  unfolding directory_contracts
  directory_contracts-Stems s disk {cs} {c} h m =
      let (json, got, h1) =
        bind_ok (all_contracts s disk.bytes disk.loads (take s.max_contract_files disk.json_paths))
          _ h in
      let (yaml, more, h2) = bind_ok (yaml_part s disk disk.yaml_paths) _ h1 in
      elim (Among-append json yaml (subst (λ xs. Among c xs) (sym (ok_inj h2)) m)) [
        | inl a ↦ inl (all_contracts-Stems s disk disk.loads _ got a)
        | inr b ↦ inr (yaml_part-Stems s disk disk.yaml_paths more b)
      ]

  -- What the file repository returns is bounded: each contract was extracted from the parsed content
  -- of a file of at most `max_file_bytes`, among the first `max_contract_files` JSON files, or where
  -- PyYAML is there, among as many of the first YAML files as these leave of `max_contract_files`.
  pub fetch_active_contracts-bounded :
      (s : Settings) (disk : Disk F) {cs : List (Fields F)} {c : Fields F}
      → fetch_active_contracts s disk ≡ ok cs
      → Among c cs
      → Stems s disk (take s.max_contract_files disk.json_paths) disk.loads c
        ⊎ ((yaml : List String) × (disk.yaml_paths ≡ some yaml)
            × Stems s disk
                (take
                  (s.max_contract_files - length (take s.max_contract_files disk.json_paths))
                  yaml)
                disk.safe_load
                c)
  unfolding fetch_active_contracts directory_contracts
  fetch_active_contracts-bounded s disk {cs} {c} h m = elim (Bool-cases disk.is_dir) [
    | inr absent ↦
        let nothing : Path (Result (List (Fields F))) (ok []) (ok cs) =
          sym (rw (fetch_active_contracts, absent) refl) ∙ h in
        absurd (Among-nil (subst (λ xs. Among c xs) (sym (ok_inj nothing)) m))
    | inl present ↦
        let these : directory_contracts s disk ≡ ok cs =
          sym (rw (fetch_active_contracts, present) refl) ∙ h in
        directory_contracts-Stems s disk these m
  ]
