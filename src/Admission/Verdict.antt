-- ===== src/Admission/Verdict.antt =====
-- The verdict of `admit_contract`, which is taken after the issues are cut to `_MAX_ISSUES`.
use congine.Admission.{
  Mode, strict, warn, Issue, error_of, is_error, advisories, legacy_advisories, verdict, findings,
  admit_contract,
}
use congine.Admission.Grammar.{Finding}
use congine.Json.{ℤ, dict, Fields, Re2}
use congine.Prelude.{
  ◌≤◌, String, true, false, ◌≡◌, ◌↔◌, refl, Option, List, [], ◌∷◌, ◌++◌, map, any, length, arith,
}
use congine.Vocabulary.{SemanticCapability}

-- An error comes first, so it is among the issues that are kept.
verdict_iff :
    (fs : List Finding) (notes : List Issue)
    → (any is_error notes ≡ false)
    → (length notes ≤ 1)
    → ((verdict (map error_of fs ++ notes)).admitted ≡ true) ↔ (fs ≡ [])
unfolding verdict
verdict_iff [] [] quiet short = ground arith
verdict_iff [] (n ∷ []) quiet short = ground (arith, quiet)
verdict_iff [] (n ∷ m ∷ ns) quiet short = absurd (ground (arith, short))
verdict_iff (f ∷ fs) notes quiet short = ground arith

module _ {F : Type 0} where
  advisories-quiet :
      (mode : Mode) (schema : Fields F)
      → (any is_error (advisories mode schema) ≡ false) × (length (advisories mode schema) ≤ 1)
  unfolding legacy_advisories
  advisories-quiet strict schema = (refl, ground arith)
  advisories-quiet warn schema = ground arith

  -- A mapping is admitted exactly when none of the checks finds anything: the cap on reported issues
  -- never hides an error, and the mode never changes the verdict.
  pub admitted-iff-clean :
      (re : Re2) (parse_int : String → Option ℤ) (mode : Mode) (enforced_keywords : List String)
      (capability : Option SemanticCapability) (schema : Fields F)
      → ((admit_contract re parse_int mode enforced_keywords capability (dict schema)).admitted
          ≡ true)
        ↔ (findings re parse_int enforced_keywords capability schema ≡ [])
  unfolding admit_contract
  admitted-iff-clean re parse_int mode enforced_keywords capability schema =
      let (quiet, short) = advisories-quiet mode schema in
      verdict_iff (findings re parse_int enforced_keywords capability schema)
        (advisories mode schema) quiet short
