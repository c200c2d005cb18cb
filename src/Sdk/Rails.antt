-- ===== src/Sdk/Rails.antt =====
-- packages/zamapay-server/src/rails.ts: the two payment rails.
use zamapay.Prelude.{if◌then◌else◌}
use zamapay.Prelude.Text.{Text, lit, str_eq}
use zamapay.Js.{Value, string}
use zamapay.Sdk.Errors.{invalid_request_error}
use zamapay.Sdk.Result.{Result, ok, raise}

pub data PaymentRail : Type 0 where
  zama_private evm_erc20 : PaymentRail

abbrev pub rail_text : PaymentRail → Text
rail_text zama_private = lit "zama_private"
rail_text evm_erc20 = lit "evm_erc20"

abbrev pub invalid_rail : Result PaymentRail
invalid_rail = raise invalid_request_error (lit "invalid_payment_rail")

unfoldable pub require_payment_rail : Value → Result PaymentRail
require_payment_rail (string s) =
    if str_eq s (lit "zama_private")
    then ok zama_private
    else if str_eq s (lit "evm_erc20")
    then ok evm_erc20
    else invalid_rail
require_payment_rail _ = invalid_rail
