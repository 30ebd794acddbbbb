-- ===== src/Guard.antt =====
-- libs/congine-sdk/src/congine_core/adapters/guard.py: `congine_guard`, around a function whose answer
-- is a parameter. The container is the one that `_resolve` finds; `execute` is its use case's.
pub mod Enforced
mod Examples
use congine.Container.{Container, ensure_open}
use congine.Json.{Value, Result, ok, raise, Exc, validation_error}
use congine.Models.{ValidationResult, is_pass}
use congine.Prelude.{String, Option, none, some, if◌then◌else◌}
use congine.UseCase.{Settings, World, M, execute, ◌>>=◌}

-- `_MODES`
pub data Mode : Type 0 where
  envelope output raises : Mode

-- What the wrapper hands to the caller.
pub data Reply (V : Type 0) : Type 0 where
  enveloped : V → ValidationResult → Reply V
  plain : V → Reply V

abbrev pub output_of : {V : Type 0} → Reply V → V
output_of (enveloped v r) = v
output_of (plain v) = v

-- `_finish`
unfoldable pub finish : {V : Type 0} → Mode → V → ValidationResult → Result (Reply V)
finish raises out r = if is_pass r then ok (plain out) else raise validation_error
finish output out r = ok (plain out)
finish envelope out r = ok (enveloped out r)

-- `_payload`, where an output that is no extractor's is the payload itself
unfoldable pub payload_of :
    {F V : Type 0} → (V → Value F) → Option (V → Result (Value F)) → V → Result (Value F)
payload_of itself none out = ok (itself out)
payload_of itself (some extractor) out = extractor out

-- a call of something that does not touch the workflow's state
unfoldable pub call : {S A : Type 0} → Result A → M S A
call answer w = (answer, w)

module _ {F S V : Type 0} where
  -- `sync_wrapper` and `async_wrapper`, around a function that answers `returned`
  unfoldable pub wrapper :
      Settings F S
      → Container
      → Mode
      → (V → Value F)
      → Option (V → Result (Value F))
      → Result V
      → String
      → String
      → M S (Reply V)
  unfolding finish payload_of call
  wrapper u container mode itself extractor returned contract_id version = do
    opened ← call (ensure_open container)
    out ← call returned
    payload ← call (payload_of itself extractor out)
    validation_result ← execute u payload contract_id version
    call (finish mode out validation_result)
