-- ===== src/Repository.antt =====
-- Where contracts come from: libs/congine-sdk/src/congine_core/infrastructure/file_contract_repository.py
-- and http_contract_repository.py. Log records are left out.
pub mod Files
pub mod Bounds
pub mod Snapshots
mod Examples
use congine.Json.{Value, list, dict, Items, nil, cons, Fields, has, get}
use congine.Prelude.{
  String, Bool, true, false, ◌&&◌, ◌≡◌, refl, ap, Option, none, some, List, [], ◌∷◌, if◌then◌else◌,
}

module _ {F : Type 0} where
  -- `[c for c in xs if isinstance(c, dict)]`
  unfoldable pub mappings : Items F → List (Fields F)
  mappings nil = []
  mappings (cons (dict fs) xs) = fs ∷ mappings xs
  mappings (cons _ xs) = mappings xs

  abbrev pub items_of : List (Fields F) → Items F
  items_of [] = nil
  items_of (fs ∷ more) = cons (dict fs) (items_of more)

  pub mappings-items_of : (contracts : List (Fields F)) → mappings (items_of contracts) ≡ contracts
  unfolding mappings
  mappings-items_of [] = refl
  mappings-items_of (fs ∷ more) = ap (λ rest. fs ∷ rest) (mappings-items_of more)
