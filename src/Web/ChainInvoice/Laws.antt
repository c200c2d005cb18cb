-- ===== src/Web/ChainInvoice/Laws.antt =====
-- Which chain invoices are created.
use zamapay.Prelude.{◌+◌, ◌≤◌, ◌<◌, ◌≡◌, true, false, none, [], ◌⊎◌, ◌or_use◌, is_some}
use zamapay.Prelude.Text.{Text}
use zamapay.Js.{undefined, max_safe_integer}
use zamapay.Web.Errors.{ok}
use zamapay.Web.Environment.{ContractEnvironment, local_dev, sepolia}
use zamapay.Web.Finalize.{server_contract_environment}
use zamapay.Web.Gates.{in_production, bearer_token, is_local_request_url}
use zamapay.Web.ChainInvoice.{
  InvoiceInput, QuoteResponse, InvoiceServer, InvoiceRequest, quote_matches,
}

-- The amount is a positive safe integer, and it is split into the merchant's part and the fee.
abbrev pub IsSplit : InvoiceInput → Type 0
IsSplit input =
    (input.merchant_net_minor_units + input.platform_fee_minor_units ≡ input.amount_minor_units)
    × (0 < input.amount_minor_units)
    × (input.amount_minor_units ≤ max_safe_integer)

module _ (server : InvoiceServer) (request : InvoiceRequest) where
  -- The process is not in production, and the request's host is local.
  abbrev pub IsLocal : Type 0
  IsLocal =
      (in_production server.node_env ≡ false)
      × (is_local_request_url server.hostname request.url ≡ ok true)

  -- The API answered, under the request's authorization, with a quote of this invoice.
  abbrev pub IsQuoted : InvoiceInput → Type 0
  IsQuoted input =
      (url : Text) × (response : QuoteResponse) × (server.quote_url input.settlement_bucket_seed
        ≡ ok url)
      × (server.fetch_quote url (request.authorization or_use []) input.amount_minor_units
          ≡ ok response)
      × (response.quote_ok ≡ true)
      × (quote_matches input (response.quote or_use undefined) ≡ true)

  abbrev pub IsAllowed : ContractEnvironment → InvoiceInput → Type 0
  IsAllowed local_dev input = IsLocal
  IsAllowed sepolia input = IsQuoted input ⊎ ((bearer_token request.authorization ≡ none) × IsLocal)

  -- An invoice for the server's environment, split as it must be, and allowed there.
  abbrev pub IsAuthorized : ContractEnvironment × InvoiceInput → Type 0
  IsAuthorized (environment, input) =
      (server_contract_environment server.variables ≡ ok environment)
      × IsSplit input
      × IsAllowed environment input

  abbrev GateOpen : ContractEnvironment → Type 0
  GateOpen local_dev = IsLocal
  GateOpen sepolia = IsLocal ⊎ (is_some (bearer_token request.authorization) ≡ true)
