-- ===== src/Sdk/Errors/Laws.antt =====
-- What the class of a response's error depends on.
use zamapay.Prelude.{ℕ, ◌≢◌, arith}
use zamapay.Sdk.Errors.{connection_error, timeout_error, ParsedError, classify}

pub classify-ne-connection :
    (status : ℕ) (parsed : ParsedError)
    → (classify status parsed ≢ connection_error) × (classify status parsed ≢ timeout_error)
unfolding classify
classify-ne-connection status parsed = ground arith
