-- ===== src/Web/ChainInvoice.antt =====
-- apps/web/app/api/dev/local-chain-invoice/route.ts: the creation of a chain invoice. The Rust API's quote,
-- the creation on the two chains and URLs are parameters; the invoices created are recorded.
pub mod Laws
use zamapay.Prelude.{
  ℕ, ◌+◌, Bool, true, false, not, ◌&&◌, ◌||◌, Option, none, some, List, [], ◌∷◌, ◌++◌, ◌or_use◌,
  ◌==◌, ltb, leb, if◌then◌else◌,
}
use zamapay.Prelude.Text.{Text, lit, nonempty, str_eq, to_lower, trim}
use zamapay.Js.{
  Value, undefined, number, string, object, end, member, truthy, is_nullish, Number, int, pos,
  is_safe_integer,
}
use zamapay.Web.Errors.{
  Outcome, Failure, error, Attempt, ok, throw, ensure, error_message, ◌>>=◌, ◌>>◌,
}
use zamapay.Web.Environment.{
  ContractEnvironment, local_dev, sepolia, ProfileVariables, environment_text,
}
use zamapay.Web.Finalize.{server_contract_environment}
use zamapay.Web.Gates.{
  in_production, bearer_token, can_use_local_dev_server_bridge, can_use_sepolia_server_bridge,
}
use zamapay.Web.Receipts.{JsonReply, error_reply}
use zamapay.Web.Relay.{Viem, read_property}

-- `invoiceInput`
pub record InvoiceInput : Type 0 where
  pub amount_minor_units : ℕ
  pub expires_in_seconds : Option ℕ
  pub external_ref : Text
  pub merchant_net_minor_units : ℕ
  pub merchant_owner_address : Text
  pub platform_fee_minor_units : ℕ
  pub settlement_bucket_seed : Text

-- The API's answer about a quote; `quote` is none where it is no JSON.
pub record QuoteResponse : Type 0 where
  pub quote_ok : Bool
  pub quote_status : ℕ
  pub quote : Option Value

pub record InvoiceServer : Type 0 where
  pub variables : ProfileVariables
  pub node_env : Option Text
  pub hostname : Text → Attempt Text
  pub viem : Viem
  pub quote_url : Text → Attempt Text
  pub fetch_quote : Text → Text → ℕ → Attempt QuoteResponse
  pub create_local_chain_invoice : InvoiceInput → Attempt Value
  pub create_sepolia_chain_invoice : InvoiceInput → Attempt Value

pub record InvoiceRequest : Type 0 where
  pub url : Text
  pub authorization : Option Text
  pub json : Option Value

-- How the handler ends before it creates an invoice.
pub data Stop : Type 0 where
  replied : JsonReply → Stop
  thrown : Failure → Stop

abbrev pub Step : Type 0 → Type 0
Step A = Outcome Stop A

abbrev pub reply_error : ℕ → Text → Stop
reply_error status message = replied (error_reply status message)

abbrev pub lift : {A : Type 0} → Attempt A → Step A
lift (throw e) = throw (thrown e)
lift (ok a) = ok a

abbrev pub or_stop : {A : Type 0} → Option A → Text → Step A
or_stop none message = throw (reply_error 400 message)
or_stop (some a) message = ok a

unfoldable pub read_non_negative_safe_integer : Value → Option ℕ
read_non_negative_safe_integer (number (int (pos n))) =
    if is_safe_integer (int (pos n)) then some n else none
read_non_negative_safe_integer _ = none

unfoldable pub read_positive_safe_integer : Value → Option ℕ
read_positive_safe_integer (number (int (pos n))) =
    if is_safe_integer (int (pos n)) && not (n == 0) then some n else none
read_positive_safe_integer _ = none

unfoldable pub expires_of : Value → Step (Option ℕ)
expires_of undefined = ok none
expires_of v = do
  seconds ←
      or_stop (read_positive_safe_integer v) (lit "expiresInSeconds must be a positive integer.")
  ok (some seconds)

unfoldable pub required_text : Value → Text → Step Text
required_text (string s) name =
    if nonempty (trim s) then ok s else throw (reply_error 400 (name ++ lit " is required."))
required_text _ name = throw (reply_error 400 (name ++ lit " is required."))

-- The checks of the body. Both parts of the split are safe integers, so their sum, where the source
-- rounds it, is no safe integer and differs from the amount.
unfoldable pub invoice_input : Value → Step InvoiceInput
invoice_input body = do
  amount ←
      or_stop (read_positive_safe_integer (member body (lit "amountMinorUnits")))
        (lit "amountMinorUnits must be a positive integer.")
  net ←
      or_stop (read_positive_safe_integer (member body (lit "merchantNetMinorUnits")))
        (lit "merchantNetMinorUnits must be a positive integer.")
  fee ←
      or_stop (read_non_negative_safe_integer (member body (lit "platformFeeMinorUnits")))
        (lit "platformFeeMinorUnits must be a non-negative integer.")
  ensure (net + fee == amount) (reply_error 400 (lit "billing split must equal amountMinorUnits."))
  expires ← expires_of (member body (lit "expiresInSeconds"))
  reference ← required_text (member body (lit "externalRef")) (lit "externalRef")
  seed ← required_text (member body (lit "settlementBucketSeed")) (lit "settlementBucketSeed")
  owner ← required_text (member body (lit "merchantOwnerAddress")) (lit "merchantOwnerAddress")
  ok (record {
    amount_minor_units = amount;
    expires_in_seconds = expires;
    external_ref = reference;
    merchant_net_minor_units = net;
    merchant_owner_address = owner;
    platform_fee_minor_units = fee;
    settlement_bucket_seed = seed;
  })

-- `v === n`
abbrev pub is_amount : ℕ → Value → Bool
is_amount n (number (int (pos m))) = m == n
is_amount n _ = false

abbrev pub is_owner : Text → Value → Bool
is_owner address (string wallet) = str_eq (to_lower wallet) (to_lower address)
is_owner address _ = false

-- The quote is about the invoice.
unfoldable pub quote_matches : InvoiceInput → Value → Bool
quote_matches input quote =
    truthy (member quote (lit "billing"))
    && is_amount input.amount_minor_units
        (member (member quote (lit "billing")) (lit "grossAmountMinorUnits"))
    && is_amount input.merchant_net_minor_units
        (member (member quote (lit "billing")) (lit "merchantNetMinorUnits"))
    && is_amount input.platform_fee_minor_units
        (member (member quote (lit "billing")) (lit "platformFeeMinorUnits"))
    && is_owner input.merchant_owner_address (member quote (lit "merchantOwnerWallet"))

-- What the API's answer means for the invoice.
unfoldable pub check_quote : InvoiceInput → Attempt QuoteResponse → Step (Unit {0})
check_quote input (throw _) = throw (reply_error 502 (lit "project API is unavailable"))
check_quote input (ok response) = do
  ensure (not ((response.quote_status == 401) || (response.quote_status == 403)))
      (reply_error 401 (lit "invalid project secret"))
  ensure response.quote_ok
      (reply_error response.quote_status (lit "project API rejected chain invoice authorization"))
  ensure (quote_matches input (response.quote or_use undefined))
      (reply_error 400 (lit "chain invoice payload does not match the authorized project quote"))

module _ (server : InvoiceServer) where
  unfoldable pub is_local_dev_enabled : ContractEnvironment → InvoiceRequest → Attempt Bool
  is_local_dev_enabled environment request =
      can_use_local_dev_server_bridge server.hostname (record {
        contract_env = some (environment_text environment);
        switch = none;
        node_env = server.node_env;
        request_url = request.url;
      })

  unfoldable pub is_sepolia_dev_bridge_enabled : InvoiceRequest → Attempt Bool
  is_sepolia_dev_bridge_enabled request =
      can_use_sepolia_server_bridge server.hostname request.authorization server.node_env
        request.url

  abbrev pub invoice_gate : ContractEnvironment → InvoiceRequest → Step (Unit {0})
  invoice_gate local_dev request = do
    enabled ← lift (is_local_dev_enabled local_dev request)
    ensure enabled (reply_error 404 (lit "local chain invoice bridge is disabled"))
  invoice_gate sepolia request = do
    enabled ← lift (is_sepolia_dev_bridge_enabled request)
    ensure enabled (reply_error 404 (lit "sepolia chain invoice bridge is disabled"))

  -- `validateProjectInvoiceRequest`
  unfoldable pub validate_project_invoice_request : Text → InvoiceInput → Step (Unit {0})
  validate_project_invoice_request header input = do
    url ← lift (server.quote_url input.settlement_bucket_seed)
    check_quote input (server.fetch_quote url header input.amount_minor_units)

  abbrev pub authorize_by : Option Text → InvoiceRequest → InvoiceInput → Step (Unit {0})
  authorize_by none request input =
      ensure (not (in_production server.node_env)) (reply_error 401 (lit "missing project secret"))
  authorize_by (some token) request input =
      validate_project_invoice_request (request.authorization or_use []) input

  abbrev pub authorize : ContractEnvironment → InvoiceRequest → InvoiceInput → Step (Unit {0})
  authorize local_dev request input = ok tt
  authorize sepolia request input = authorize_by (bearer_token request.authorization) request input

  unfoldable pub checked_invoice : InvoiceRequest → Step (ContractEnvironment × InvoiceInput)
  checked_invoice request = do
    environment ← lift (server_contract_environment server.variables)
    invoice_gate environment request
    let body = request.json or_use object end
    ensure (not (is_nullish body))
        (thrown (error (server.viem.cannot_read (lit "amountMinorUnits"))))
    input ← invoice_input body
    authorize environment request input
    ok (environment, input)

  abbrev create_at : ContractEnvironment → InvoiceInput → Attempt Value
  create_at local_dev input = server.create_local_chain_invoice input
  create_at sepolia input = server.create_sepolia_chain_invoice input

  abbrev created_reply : Attempt Value → JsonReply
  created_reply (ok v) = record { reply_status = 200; json = v }
  created_reply (throw e) =
      error_reply 502 (error_message e or_use lit "chain invoice creation failed")

  abbrev pub create_checked :
      Step (ContractEnvironment × InvoiceInput)
      → Attempt JsonReply × List (ContractEnvironment × InvoiceInput)
  create_checked (throw (replied reply)) = (ok reply, [])
  create_checked (throw (thrown e)) = (throw e, [])
  create_checked (ok (environment, input)) =
      (ok (created_reply (create_at environment input)), (environment, input) ∷ [])

  -- `POST`, with what it asks the chain to create
  unfoldable pub post_chain_invoice :
      InvoiceRequest → Attempt JsonReply × List (ContractEnvironment × InvoiceInput)
  post_chain_invoice request = create_checked (checked_invoice request)
