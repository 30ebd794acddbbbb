-- ===== src/Sync/Gate.antt =====
-- Admission is the gate of the schema cache.
use congine.Json.{ℤ, Value, Fields, Floats, Re2, Result, ok, raise, sync_error}
use congine.Prelude.{
  ℕ, suc, if◌then◌else◌, ◌+◌, ◌⊎◌, String, ◌≡◌, ◌≤◌, refl, Bool, true, false, Option, none, some,
  List, [], ◌∷◌, arith, Bool-cases, inl, inr, is_some, subst, sym, ◌∙◌,
}
use congine.Sync.{
  Ports, Settings, World, admission, prime_one, candidate, prime_candidate, prime_cache, apply,
  add_loaded, then_prime, end_apply, primed, admit, sync_once, load_snapshot_only,
  sync_once_single_flight, breaker_allows, breaker_record_failure, breaker_record_success,
  record_rejection,
}

plus_zero : (n : ℕ) → 0 + n ≡ n
plus_zero n = omega arith

plus_one : (n : ℕ) → 1 + n ≡ suc n
plus_one n = omega arith

-- A contract of a batch.
pub data Among {A : Type 0} (c : A) : List A → Type 0 where
  among_head : {cs : List A} → Among c (c ∷ cs)
  among_tail : {d : A} {cs : List A} → Among c cs → Among c (d ∷ cs)

module _ {F S : Type 0} (fl : Floats F) (re : Re2) (parse_int : String → Option ℤ) (s : Settings)
    (ports : Ports F S) where
  -- A schema that may become active policy.
  abbrev pub Admitted : Value F → Type 0
  Admitted schema = (admission fl re parse_int s ports schema).admitted ≡ true

  -- the store after a candidate: as it was, or with the candidate's admitted schema put
  prime_one-store :
      (contract_id schema : Value F) (w : World F S)
      → ((prime_one fl re parse_int s ports contract_id schema w).1.store ≡ w.store)
        ⊎ (Admitted schema
            × ((prime_one fl re parse_int s ports contract_id schema w).1.store
                ≡ (ports.put contract_id schema w.store).1))
  unfolding prime_one admit record_rejection
  prime_one-store contract_id schema w = elim (Bool-cases (ports.interrupted schema)) [
    | inl gave_up ↦ inl (ground (arith, gave_up))
    | inr judged ↦ elim (Bool-cases (admission fl re parse_int s ports schema).admitted) [
      | inl good ↦ inr (good, ground (arith, judged, good))
      | inr bad ↦ inl (ground (arith, judged, bad))
    ]
  ]

  -- A batch that the ports offer during a pass.
  pub data Offered (contracts : List (Fields F)) : Type 0 where
    from_plane : ports.fetch ≡ ok contracts → Offered contracts
    from_disk : ports.load_snapshot ≡ some contracts → Offered contracts

  -- What holds of the store, and stays so when an admitted schema of the batch is put.
  abbrev pub Kept : (S → Type 0) → List (Fields F) → Type 0
  Kept P contracts =
      (contract : Fields F) (contract_id schema : Value F) (st : S)
      → Among contract contracts
      → candidate fl re parse_int s ports contract ≡ some (contract_id, schema)
      → Admitted schema
      → P st
      → P (ports.put contract_id schema st).1

  prime_cache-keeps :
      (P : S → Type 0) (contracts : List (Fields F)) (w : World F S)
      → Kept P contracts
      → P w.store
      → P (prime_cache fl re parse_int s ports contracts w).1.store
  unfolding prime_cache
  prime_cache-keeps P [] w kept p = p
  prime_cache-keeps P (c ∷ cs) w kept p =
      after_one
        (λ w' q.
          prime_cache-keeps P cs w' (λ contract i v st m. kept contract i v st (among_tail m)) q)
        (prime_candidate fl re parse_int s ports (candidate fl re parse_int s ports c) w)
        (go (candidate fl re parse_int s ports c) refl)
    where
      after_one :
          ((w' : World F S) → P w'.store → P (prime_cache fl re parse_int s ports cs w').1.store)
          → (p : Result ℕ × World F S) → P p.1.store
          → P
              (then_prime fl re parse_int s ports
                (λ w'. prime_cache fl re parse_int s ports cs w')
                p).1.store
      after_one rest (raise e, w') q = q
      after_one rest (ok n, w') q = rest w' q

      go :
          (o : Option (Value F × Value F))
          → candidate fl re parse_int s ports c ≡ o
          → P (prime_candidate fl re parse_int s ports o w).1.store
      go none e = p
      go (some (contract_id, schema)) e = elim (prime_one-store contract_id schema w) [
        | inl same ↦ subst P (sym same) p
        | inr (good, put) ↦
            subst P (sym put) (kept c contract_id schema w.store among_head e good p)
      ]

  end_apply-store :
      (fetched : Bool) (contracts : List (Fields F)) (p : Result ℕ × World F S)
      → (end_apply fl re parse_int s ports fetched contracts p).1.store ≡ p.1.store
  end_apply-store fetched contracts (raise e, w) = refl
  end_apply-store false contracts (ok loaded, w) = refl
  end_apply-store true contracts (ok loaded, w) = saved ports.save refl
    where
      saved :
          (m : Result (Unit {0}))
          → ports.save ≡ m
          → (end_apply fl re parse_int s ports true contracts (ok loaded, w)).1.store ≡ w.store
      saved m e = ground (arith, e)

  apply-keeps :
      (P : S → Type 0) (o : Option (List (Fields F))) (fetched : Bool) (w : World F S)
      → ((contracts : List (Fields F)) → o ≡ some contracts → Kept P contracts)
      → P w.store
      → P (apply fl re parse_int s ports o fetched w).1.store
  unfolding apply
  apply-keeps P none fetched w kept p = p
  apply-keeps P (some []) fetched w kept p = p
  apply-keeps P (some (c ∷ cs)) fetched w kept p =
      subst P
        (sym (end_apply-store fetched (c ∷ cs) (prime_cache fl re parse_int s ports (c ∷ cs) w)))
        (prime_cache-keeps P (c ∷ cs) w (kept (c ∷ cs) refl) p)

  sync_once-keeps :
      (P : S → Type 0) (w : World F S)
      → ((contracts : List (Fields F)) → Offered contracts → Kept P contracts)
      → P w.store
      → P (sync_once fl re parse_int s ports w).1.store
  unfolding sync_once
  sync_once-keeps P w kept p =
      go (breaker_allows ports.now w).0 (breaker_allows ports.now w).1 ports.fetch refl
        (subst P (sym (unfold breaker_allows in ground arith)) p)
    where
      from_snapshot :
          (v : World F S)
          → P v.store
          → P (apply fl re parse_int s ports ports.load_snapshot false v).1.store
      from_snapshot v q =
          apply-keeps P ports.load_snapshot false v (λ cs e. kept cs (from_disk e)) q

      go :
          (allowed : Bool) (v : World F S) (m : Result (List (Fields F)))
          → ports.fetch ≡ m
          → P v.store
          → P
              (if allowed
                then elim m [
                  | ok contracts ↦
                      apply fl re parse_int s ports (some contracts) true (breaker_record_success v)
                  | raise sync_error ↦
                      apply fl re parse_int s ports ports.load_snapshot false
                        (breaker_record_failure ports.failed_at v)
                  | raise e ↦ (raise e, v)
                ]
                else apply fl re parse_int s ports ports.load_snapshot false v).1.store
      go false v m e q = from_snapshot v q
      go true v (ok contracts) e q =
          apply-keeps P (some contracts) true _
            (λ cs h. kept cs (from_plane (e ∙ (ground (arith, h)))))
            (subst P (unfold breaker_record_success in ground arith) q)
      go true v (raise sync_error) e q =
          from_snapshot _ (subst P (unfold breaker_record_failure in ground arith) q)
      go true v (raise x) e q = q

  -- Admission is the gate of the cache: whatever holds of the store before a pass, and stays so when
  -- a schema that admission accepts, of a contract of the fetched batch or the snapshot, is put under
  -- its id, holds after the pass, however the fetch, the breaker, the boot lock and the check end.
  pub sync-gate :
      (P : S → Type 0) (w : World F S)
      → ((contracts : List (Fields F)) → Offered contracts → Kept P contracts)
      → P w.store
      → P (sync_once_single_flight fl re parse_int s ports w).1.store
  unfolding sync_once_single_flight load_snapshot_only
  sync-gate P w kept p = go ports.boot_lock
    where
      go :
          (lock : Option Bool)
          → P
              (elim lock as (λ _. Result ℕ × World F S) [
                | none ↦ sync_once fl re parse_int s ports w
                | some true ↦ sync_once fl re parse_int s ports w
                | some false ↦ load_snapshot_only fl re parse_int s ports w
              ]).1.store
      go none = sync_once-keeps P w kept p
      go (some true) = sync_once-keeps P w kept p
      go (some false) = apply-keeps P ports.load_snapshot false w (λ cs e. kept cs (from_disk e)) p

  -- the contracts of a batch that have an id and a schema
  pub candidates : List (Fields F) → ℕ
  candidates [] = 0
  candidates (c ∷ cs) =
      let rest = candidates cs in
      if is_some (candidate fl re parse_int s ports c) then suc rest else rest

  -- What a run over so many contracts with an id and a schema has counted: all of them, as loaded or
  -- rejected; or, where a put raises, neither that contract nor those after it.
  abbrev pub Counted : ℕ → ℕ → Result ℕ × World F S → Type 0
  Counted offered before (ok loaded, w) = loaded + w.rejected_total ≡ offered + before
  Counted offered before (raise e, w) = suc w.rejected_total ≤ offered + before

  admit-counts :
      (contract_id schema : Value F) (w : World F S)
      → (if (admit fl re parse_int s ports contract_id schema w).0 then 1 else 0)
          + (admit fl re parse_int s ports contract_id schema w).1.rejected_total
        ≡ suc w.rejected_total
  unfolding admit record_rejection
  admit-counts contract_id schema w = ground arith

  prime_one-counts :
      (contract_id schema : Value F) (w : World F S)
      → Counted 1 w.rejected_total (prime_one fl re parse_int s ports contract_id schema w)
  unfolding prime_one
  prime_one-counts contract_id schema w =
      go (admit fl re parse_int s ports contract_id schema w).0
        (admit fl re parse_int s ports contract_id schema w).1 (admit-counts contract_id schema w)
    where
      put_counts :
          (r : Result (Unit {0})) (st : S) (w' : World F S)
          → w'.rejected_total ≡ w.rejected_total
          → Counted 1 w.rejected_total (primed r, record w' { store = st })
      put_counts (ok u) st w' h = omega (arith, h)
      put_counts (raise e) st w' h = omega (arith, h)

      go :
          (admitted : Bool) (w' : World F S)
          → (if admitted then 1 else 0) + w'.rejected_total ≡ suc w.rejected_total
          → Counted 1 w.rejected_total (
              if admitted
              then (
                primed (ports.put contract_id schema w'.store).0,
                record w' { store = (ports.put contract_id schema w'.store).1 },
              )
              else (ok 0, w'))
      go true w' h =
          put_counts (ports.put contract_id schema w'.store).0
            (ports.put contract_id schema w'.store).1 w' (omega (arith, h))
      go false w' h = omega (arith, h)

  then_prime-counts :
      (n m before : ℕ) (rest : World F S → Result ℕ × World F S) (p : Result ℕ × World F S)
      → ((w : World F S) → Counted m w.rejected_total (rest w))
      → Counted n before p
      → Counted (n + m) before (then_prime fl re parse_int s ports rest p)
  then_prime-counts n m before rest (raise e, w) more h = omega (arith, h)
  then_prime-counts n m before rest (ok k, w) more h = go (rest w) (more w)
    where
      go :
          (q : Result ℕ × World F S)
          → Counted m w.rejected_total q
          → Counted (n + m) before (add_loaded k q.0, q.1)
      go (raise e, v) c = omega (arith, c, h)
      go (ok j, v) c = omega (arith, c, h)

  -- Where the loop over a batch returns, every contract of it that has an id and a schema is counted
  -- once: as loaded, or in `contracts_rejected_total`. Where a put under an id that the storage cannot
  -- hash raises, no contract is counted twice, and that one not at all.
  pub prime_cache-counts :
      (contracts : List (Fields F)) (w : World F S)
      → Counted
          (candidates contracts)
          w.rejected_total
          (prime_cache fl re parse_int s ports contracts w)
  unfolding prime_cache candidates
  prime_cache-counts [] w = refl
  prime_cache-counts (c ∷ cs) w = go (candidate fl re parse_int s ports c) (prime_cache-counts cs)
    where
      go :
          (o : Option (Value F × Value F))
          → ((v : World F S)
              → Counted (candidates cs) v.rejected_total (prime_cache fl re parse_int s ports cs v))
          → Counted (if is_some o then suc (candidates cs) else candidates cs) w.rejected_total (
              then_prime fl re parse_int s ports
                (λ v. prime_cache fl re parse_int s ports cs v)
                (prime_candidate fl re parse_int s ports o w))
      go none rest =
          subst
            (λ n. Counted n w.rejected_total (
              then_prime fl re parse_int s ports (λ v. prime_cache fl re parse_int s ports cs v)
                (ok 0, w)))
            (plus_zero (candidates cs))
            (then_prime-counts 0 (candidates cs) w.rejected_total
              (λ v. prime_cache fl re parse_int s ports cs v) (ok 0, w) rest refl)
      go (some (i, v)) rest =
          subst
            (λ n. Counted n w.rejected_total (
              then_prime fl re parse_int s ports (λ v. prime_cache fl re parse_int s ports cs v)
                (prime_one fl re parse_int s ports i v w)))
            (plus_one (candidates cs))
            (then_prime-counts 1 (candidates cs) w.rejected_total
              (λ v. prime_cache fl re parse_int s ports cs v)
              (prime_one fl re parse_int s ports i v w) rest (prime_one-counts i v w))
