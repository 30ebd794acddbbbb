-- ===== src/Json/Text.antt =====
-- Python's string operations, on texts as lists of code points.
use Prim.Native.Char.{Char, code}
use Prim.Native.String.{String}
use congine.Prelude.{ℕ, Bool, true, false, ◌||◌, ◌&&◌, List, [], ◌∷◌, nat_beq, if◌then◌else◌, ◌⧺◌}

-- `s.split(sep)` for a single character: at least one part.
cons_first : Char → List String → List String
cons_first c [] = []
cons_first c (p ∷ ps) = (String.◌∷◌ c p) ∷ ps

unfoldable pub split : ℕ → String → List String
unfolding cons_first
split sep String.[] = "" ∷ []
split sep (String.◌∷◌ c s) =
    let parts = split sep s in if nat_beq (code c) sep then "" ∷ parts else cons_first c parts

-- `chr in s`
unfoldable pub has_char : ℕ → String → Bool
has_char n String.[] = false
has_char n (String.◌∷◌ c s) = nat_beq (code c) n || has_char n s

-- `s.startswith(t)`
unfoldable pub starts_with : String → String → Bool
starts_with s String.[] = true
starts_with String.[] (String.◌∷◌ d t) = false
starts_with (String.◌∷◌ c s) (String.◌∷◌ d t) = nat_beq (code c) (code d) && starts_with s t

-- `t in s`
unfoldable pub has_text : String → String → Bool
unfolding starts_with
has_text t String.[] = starts_with "" t
has_text t (String.◌∷◌ c s) = starts_with (String.◌∷◌ c s) t || has_text t s

-- the parts of `for ch in s`
unfoldable pub chars : String → List String
chars String.[] = []
chars (String.◌∷◌ c s) = (String.◌∷◌ c "") ∷ chars s

-- `sep.join(parts)`
unfoldable pub join : String → List String → String
join sep [] = ""
join sep (p ∷ []) = p
join sep (p ∷ q ∷ ps) = p ⧺ (sep ⧺ join sep (q ∷ ps))
