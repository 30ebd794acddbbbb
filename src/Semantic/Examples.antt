-- ===== src/Semantic/Examples.antt =====
-- Concrete runs of the semantic validator, with an engine that knows `type` and nothing else.
use congine.Json.{Value, null, str, dict, num, int, pos, Fields, end, field, ok, get, get_or}
use congine.Prelude.{
  ◌∙◌, sym, ℕ, String, ◌≡◌, refl, ap, true, false, none, some, List, [], ◌∷◌, map, if◌then◌else◌,
  ◌==◌, string_eq,
}
use congine.Semantic.{Error, Engine, Settings, evaluate, validate_uncached, truncation}
use congine.Semantic.Bounds.{breach_of, evaluate-first}
use congine.Semantic.Cache.{PreparationCache, init}
use congine.Semantic.Identity.{Canon}
use congine.Semantic.Transparent.{Identified, answers, answers-uncached}

abbrev kind_of : Value ℕ → String
kind_of (dict fs) = "object"
kind_of (str s) = "string"
kind_of _ = "other"

abbrev type_of : Value ℕ → Value ℕ
type_of (dict fs) = get_or "type" null fs
type_of _ = null

abbrev wrong : Error
wrong = record { absolute_path = []; message = "wrong type" }

-- content is told apart by its `type`
abbrev digest_of : Value ℕ → String
digest_of v = elim (type_of v) [ str s ↦ s | null ↦ "null" | _ ↦ "bad" ]

abbrev canon : Canon ℕ
canon = record { is_finite = λ x. true; digest = digest_of }

abbrev engine : Engine ℕ
engine = record {
  validator_cls = 7;
  check_schema = λ schema. if digest_of schema == "bad" then ok (some "type") else ok none;
  iter_errors = λ format schema payload.
      (if digest_of schema == kind_of payload then [] else wrong ∷ wrong ∷ [], none);
  sanitize = λ message. message;
}

abbrev settings : Settings
settings = record { max_breaches = 1; format_checking = false }

abbrev wants_object : Fields ℕ
wants_object = field "type" (str "object") end

abbrev malformed : Fields ℕ
malformed = field "type" (num (int (pos 3))) end

abbrev fresh : {K : Type 0} → PreparationCache K
fresh = record { entries = []; capacity = 1; hits = 0; misses = 0; evictions = 0 }

abbrev calls : List (Value ℕ × Fields ℕ)
calls =
    (str "text", wants_object)
    ∷ (dict end, wants_object)
    ∷ (str "text", malformed)
    ∷ (dict end, wants_object)
    ∷ []

semantic_code : Unit {0}
unfolding evaluate validate_uncached
semantic_code = tt

passes_objects : validate_uncached canon engine settings (dict end) wants_object ≡ ok []
unfolding semantic_code get
passes_objects = refl

identified : Identified canon engine settings
identified a b h valid =
    sym (ap (λ (d : String). if d == "bad" then ok (some "type") else ok none) h) ∙ valid

answers-uncached_example :
    answers canon engine settings fresh calls
    ≡ map (λ (payload, schema). validate_uncached canon engine settings payload schema) calls
unfolding init
answers-uncached_example = answers-uncached canon engine settings 1 calls identified refl

evaluate-first_example :
    evaluate canon engine settings (str "text") (dict wants_object)
    ≡ ok (breach_of engine.sanitize wrong ∷ truncation 1 ∷ [])
unfolding get
evaluate-first_example = evaluate-first canon engine settings (str "text") (dict wants_object) refl
