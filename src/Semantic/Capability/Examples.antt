-- ===== src/Semantic/Capability/Examples.antt =====
-- A validator class of draft 4 and one of 2019-09, and the theorem at one of them.
use congine.Json.{bool, num, int, pos, Fields, end, field}
use congine.Prelude.{ℕ, ◌≡◌, refl, true, false, none, some, [], ◌∷◌, ◌&&◌, contains, string_eq}
use congine.Semantic.Capability.{
  draft4, draft201909, ValidatorClass, derive_capability, draft_name, resolve_draft,
}
use congine.Semantic.Capability.Exact.{advertises, lower_bound, derive_capability-exact}
use congine.Vocabulary.{enforces_format, enforces_exclusive_bound}

abbrev old : ValidatorClass
old = record {
  extends = λ d. elim d [ draft4 ↦ true | _ ↦ false ];
  handlers = "$ref" ∷ "minimum" ∷ "format" ∷ [];
  checkers = "email" ∷ [];
  name = "Draft4Validator";
}

abbrev later : ValidatorClass
later = record {
  extends = λ d. elim d [ draft201909 ↦ true | _ ↦ false ];
  handlers = "if" ∷ "contains" ∷ "minimum" ∷ "exclusiveMinimum" ∷ [];
  checkers = [];
  name = "Draft201909Validator";
}

old-keywords :
    (derive_capability old false).enforced_keywords
    ≡ "$ref" ∷ "minimum" ∷ "$defs" ∷ "definitions" ∷ []
unfolding derive_capability
old-keywords = refl

later-keywords :
    (derive_capability later true).enforced_keywords
    ≡ "if" ∷ "contains" ∷ "minimum" ∷ "exclusiveMinimum" ∷ "then" ∷ "else" ∷ "minContains"
      ∷ "maxContains" ∷ []
unfolding derive_capability
later-keywords = refl

later-name : draft_name later ≡ "draft201909"
unfolding draft_name
later-name = refl

resolve_draft-spelling : resolve_draft (λ s. "draft 2019-09") "Draft 2019-09" ≡ some draft201909
unfolding resolve_draft
resolve_draft-spelling = refl

resolve_draft-unknown : resolve_draft (λ s. s) "draft3" ≡ none
unfolding resolve_draft
resolve_draft-unknown = refl

-- the form `{"minimum": 5, "exclusiveMinimum": true}`
abbrev bounds : Fields ℕ
bounds = field "minimum" (num (int (pos 5))) (field "exclusiveMinimum" (bool true) end)

derive_capability-exact_example :
    (contains "$defs" (derive_capability old true).enforced_keywords ≡ advertises old true "$defs")
    × ((enforces_format (derive_capability old true) "email"
          ≡ true && contains "email" old.checkers)
        × (enforces_exclusive_bound
              (derive_capability old true)
              "exclusiveMinimum"
              (bool true)
              bounds
            ≡ lower_bound old (bool true) bounds))
derive_capability-exact_example =
    derive_capability-exact old true "$defs" "email" (bool true) bounds
