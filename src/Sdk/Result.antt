-- ===== src/Sdk/Result.antt =====
-- What a call of the SDK returns or throws.
pub use zamapay.Prelude.Outcome.{Outcome, ok, throw, ◌>>=◌, ◌>>◌, >>=-eq-ok, ok-injective}
use zamapay.Prelude.{Bool, true, false}
use zamapay.Prelude.Outcome.{ensure}
use zamapay.Prelude.Text.{Text}
use zamapay.Sdk.Errors.{ZamaPayError, ErrorClass, connection_error, timeout_error, coded}

-- The errors that `catch` tells apart: the SDK's own, `TypeError`, an error named `AbortError`,
-- and any other, each with its message.
pub data Thrown : Type 0 where
  zamapay_error : ZamaPayError → Thrown
  type_error : Text → Thrown
  abort_error : Text → Thrown
  other_error : Text → Thrown

abbrev pub Result {ℓ} : Type ℓ → Type ℓ
Result A = Outcome Thrown A

-- `throw new C(…, { code })`
abbrev pub raise {ℓ} : {A : Type ℓ} → ErrorClass → Text → Result A
raise c k = throw (zamapay_error (coded c k))

-- `if (!test) throw new C(…, { code })`
abbrev pub require : Bool → ErrorClass → Text → Result (Unit {0})
require test c k = ensure test (zamapay_error (coded c k))

-- `error instanceof ZamaPayConnectionError`
abbrev pub is_connection_class : ErrorClass → Bool
is_connection_class connection_error = true
is_connection_class timeout_error = true
is_connection_class _ = false
