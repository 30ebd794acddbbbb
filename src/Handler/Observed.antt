-- ===== src/Handler/Observed.antt =====
-- What one observation of a token does to the run that it is made on.
use congine.Handler.{RunState, refuse_locked, collect, observe}
use congine.Handler.Hosts.{
  Host, text, nothing, sequence, mapping, member, object, stream_buffer_exceeded, Inspection,
  accepts, refuses, crashes, ◌>>=◌, guarded, RefusalReason,
}
use congine.Handler.Inspect.{inspect_stream_observation}
use congine.Prelude.{
  ℕ, ◌+◌, ◌≤◌, String, ◌≡◌, refl, ap, ◌∙◌, subst, inl, inr, false, Option, none, some, List, [],
  ◌∷◌, ◌++◌, map, arith, ltb, count, Bool-cases, Option-cases, string_eq,
}

abbrev pub total : List String → ℕ
total [] = 0
total (p ∷ ps) = count p + total ps

ltb-fits : (m n : ℕ) → ltb m n ≡ false → n ≤ m
ltb-fits m n h = ground (arith, h)

total-snoc : (ps : List String) (p : String) → total (ps ++ p ∷ []) ≡ total ps + count p
total-snoc [] p = omega arith
total-snoc (q ∷ ps) p = omega (arith, total-snoc ps p)

map-snoc : (ps : List String) (p : String) → map text (ps ++ p ∷ []) ≡ map text ps ++ text p ∷ []
map-snoc [] p = refl
map-snoc (q ∷ ps) p = ap (λ ts. text q ∷ ts) (map-snoc ps p)

guarded-accepts :
    {A : Type 0} (r : RefusalReason) (x : Inspection A) {a : A}
    → guarded r x ≡ accepts a
    → x ≡ accepts a
unfolding guarded
guarded-accepts r (accepts b) h = h
guarded-accepts r (refuses s) h = absurd (ground (arith, h))
guarded-accepts r crashes h = absurd (ground (arith, h))

unfoldable pub Held : Option RefusalReason → List String → List Host → Type 0
Held none parts ts = map text parts ≡ ts
Held (some r) parts ts = parts ≡ []

-- What a run holds of the tokens that were observed on it: nothing has been dropped from a run that
-- stands, and a refused run holds no text.
unfoldable pub Whole : ℕ → Option RunState → List Host → Type 0
Whole max_buffer none ts = ts ≡ []
Whole max_buffer (some run) ts =
    (run.length ≡ total run.parts)
    × (run.length ≤ max_buffer)
    × Held run.refusal_reason run.parts ts

refuse_locked-Whole :
    (max_buffer : ℕ) (run : RunState) (reason : RefusalReason) (ts : List Host)
    → Whole max_buffer (some (refuse_locked run reason)) ts
unfolding Whole Held refuse_locked
refuse_locked-Whole max_buffer run reason ts = (refl, omega arith, refl)

collect-Whole :
    (max_buffer : ℕ) (run : RunState) (token : String) (ts : List Host)
    → Whole max_buffer (some run) ts
    → Whole max_buffer (some (collect max_buffer run token).1) (ts ++ text token ∷ [])
unfolding collect Whole Held
collect-Whole max_buffer run token ts (l, b, w) = elim (Option-cases run.refusal_reason) [
  | inr (r, e) ↦ rw e (l, b, subst (λ o. Held o run.parts ts) e w)
  | inl standing ↦ elim (Bool-cases (ltb max_buffer (run.length + count token))) [
    | inl over ↦ rw standing (
        rw over (refuse_locked-Whole max_buffer run stream_buffer_exceeded (ts ++ text token ∷ [])))
    | inr fits ↦ rw standing (
        rw fits (
          omega (arith, l, total-snoc run.parts token),
          omega (arith, ltb-fits max_buffer (run.length + count token) fits),
          map-snoc run.parts token
              ∙ ap (λ held. held ++ text token ∷ []) (subst (λ o. Held o run.parts ts) standing w),
        ))
  ]
]

guarded-total : {A : Type 0} (r : RefusalReason) (x : Inspection A) → guarded r x ≡ crashes → ⊥
unfolding guarded
guarded-total r (accepts b) h = ground (arith, h)
guarded-total r (refuses s) h = ground (arith, h)
guarded-total r crashes h = ground (arith, h)

inspect-total :
    (strip_lower : String → String) (token chunk : Host)
    → inspect_stream_observation strip_lower token chunk ≡ crashes
    → ⊥
unfolding inspect_stream_observation
inspect-total strip_lower (text t) chunk h = guarded-total _ _ h
inspect-total strip_lower nothing chunk h = ground (arith, h)
inspect-total strip_lower (sequence xs) chunk h = ground (arith, h)
inspect-total strip_lower (mapping es) chunk h = ground (arith, h)
inspect-total strip_lower (member v n) chunk h = ground (arith, h)
inspect-total strip_lower (object z attrs) chunk h = ground (arith, h)

bind-accepts :
    {A B : Type 0} (x : Inspection A) {b c : B} → (x >>= λ a. accepts b) ≡ accepts c → b ≡ c
bind-accepts (accepts a) h = ground (arith, h)
bind-accepts (refuses r) h = absurd (ground (arith, h))
bind-accepts crashes h = absurd (ground (arith, h))

inspect-text :
    (strip_lower : String → String) (token chunk : Host) {t : String}
    → inspect_stream_observation strip_lower token chunk ≡ accepts t
    → token ≡ text t
unfolding inspect_stream_observation
inspect-text strip_lower (text t) chunk h = ap text (bind-accepts _ (guarded-accepts _ _ h))
inspect-text strip_lower nothing chunk h = ground (arith, h)
inspect-text strip_lower (sequence xs) chunk h = ground (arith, h)
inspect-text strip_lower (mapping es) chunk h = ground (arith, h)
inspect-text strip_lower (member v n) chunk h = ground (arith, h)
inspect-text strip_lower (object z attrs) chunk h = ground (arith, h)

pub observe-Whole :
    (max_buffer : ℕ) (strip_lower : String → String) (run : RunState) (token chunk : Host)
    (ts : List Host)
    → Whole max_buffer (some run) ts
    → Whole max_buffer
        (some (observe max_buffer run (inspect_stream_observation strip_lower token chunk)).1)
        (ts ++ token ∷ [])
unfolding observe
observe-Whole max_buffer strip_lower run token chunk ts w =
    go (inspect_stream_observation strip_lower token chunk) refl
  where
    go :
        (seen : Inspection String)
        → inspect_stream_observation strip_lower token chunk ≡ seen
        → Whole max_buffer (some (observe max_buffer run seen).1) (ts ++ token ∷ [])
    go (accepts t) e =
        rw (inspect-text strip_lower token chunk e) (collect-Whole max_buffer run t ts w)
    go (refuses reason) e = refuse_locked-Whole max_buffer run reason (ts ++ token ∷ [])
    go crashes e = absurd (inspect-total strip_lower token chunk e)
