-- ===== src/Web/Errors.antt =====
-- What the web app's code throws: a failed answer of the Rust API (`RustApiError` of
-- apps/web/lib/rust-api-transport.ts), the `RouteError` of a route with its message and status, another
-- `Error` with its message, or a value that is no `Error`.
pub use zamapay.Prelude.Outcome.{
  Outcome, ok, throw, ◌>>=◌, ◌>>◌, ensure, Chained, >>=-eq-ok, ok-injective, Outcome-cases, Passes,
  >>=-Passes, if-Passes, Passes-map, Passes-ok, ensure-true, ensure-Passes,
}
use zamapay.Prelude.{ℕ, ◌++◌, Option, none, some}
use zamapay.Prelude.Text.{Text, lit}
use zamapay.Prelude.Decimal.{decimal}

pub data Failure : Type 0 where
  rust_api_error : Text → ℕ → Text → Failure
  route_error : Text → ℕ → Failure
  error : Text → Failure
  not_an_error : Failure

abbrev pub Attempt {ℓ} : Type ℓ → Type ℓ
Attempt A = Outcome Failure A

-- `throw new Error(message)`
abbrev pub fail {ℓ} : {A : Type ℓ} → Text → Attempt A
fail message = throw (error message)

-- `caught.message`, of a `RustApiError` the one that its constructor makes
abbrev pub rust_api_message : Text → ℕ → Text → Text
rust_api_message pathname status body =
    pathname ++ lit " failed with " ++ decimal status ++ lit ": " ++ body

-- `caught instanceof Error ? caught.message : …`
abbrev pub error_message : Failure → Option Text
error_message (rust_api_error pathname status body) = some (rust_api_message pathname status body)
error_message (route_error message status) = some message
error_message (error message) = some message
error_message not_an_error = none
