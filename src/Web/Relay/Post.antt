-- ===== src/Web/Relay/Post.antt =====
-- The `POST` handler of the relayer route.
pub mod Checks
pub mod Laws
use zamapay.Prelude.{
  ℕ, Bool, true, false, ◌&&◌, ◌||◌, not, Option, none, some, List, [], ◌∷◌, ◌++◌, ◌==◌, ◌or_use◌,
  find, length, if◌then◌else◌,
}
use zamapay.Prelude.Text.{Text, lit, nonempty, str_eq, starts_with}
use zamapay.Prelude.Decimal.{decimal}
use zamapay.Js.{Value, string, object, end, property}
use zamapay.Web.Errors.{
  Failure, rust_api_error, route_error, error, not_an_error, Attempt, ok, throw, fail, ensure,
  rust_api_message, ◌>>=◌, ◌>>◌,
}
use zamapay.Web.Environment.{
  ContractEnvironment, environment_text, local_dev, sepolia, ProfileVariables,
  public_contract_environment, chain_id, contract_environment_for_chain_id,
}
use zamapay.Web.Gates.{can_use_evm_relayer}
use zamapay.Web.Relay.{
  RelayMethod, FundingAction, Viem, method_text, relay_method, read_property, required_address,
  required_signature,
}
use zamapay.Web.Relay.Server.{
  EvmAsset, PublicCheckout, PaymentActions, RustRequest, RustResponse, Server, RelayRequest,
  ReplyBody, Reply, rejection, error_body, relayed_body,
}
use zamapay.Web.Relay.Payments.{
  Connection, RelayPaymentInput, Submission, Receipt, ChainClient, relay_payment,
}

unfoldable pub can_submit_evm_relay : Server → RelayRequest → Attempt Bool
unfolding can_use_evm_relayer public_contract_environment
can_submit_evm_relay server request = do
  environment ← public_contract_environment server.variables
  can_use_evm_relayer server.hostname (record {
    contract_env = some (environment_text environment);
    switch = server.enable_evm_relayer;
    node_env = server.node_env;
    request_url = request.url;
  })

abbrev default_local_relayer_private_key : Text
default_local_relayer_private_key =
    lit "0xac0974bec39a17e36ba4a6b4d238ff944bacb478cbed5efcae784d7bf4f2ff80"

-- `publicContractEnvironment() === 'local-dev' && new URL(request.url).hostname.match(…)`
unfoldable pub is_local : Server → RelayRequest → Attempt Bool
unfolding public_contract_environment
is_local server request = do
  environment ← public_contract_environment server.variables
  elim environment [
    | sepolia ↦ ok false
    | local_dev ↦ do
      host ← server.hostname request.url
      ok (str_eq host (lit "127.0.0.1") || str_eq host (lit "localhost"))
  ]

unfoldable pub evm_relayer_private_key : Server → RelayRequest → Attempt Text
unfolding is_local
evm_relayer_private_key server request = do
  local ← is_local server request
  let own = server.evm_relayer_private_key or_use []
  let value = if nonempty own then own else if local then default_local_relayer_private_key else []
  ensure (starts_with value (lit "0x") && (length value == 66))
      (error (lit "ZAMAPAY_EVM_RELAYER_PRIVATE_KEY must be a 32-byte private key."))
  ok value

-- `getRustJson`, `postRustJson`
unfoldable pub rust_json {ℓ} : {A : Type ℓ} → Server → (Text → Attempt A) → RustRequest → Attempt A
rust_json server parse request = do
  response ← server.fetch request
  text ← response.text
  ensure response.is_ok (rust_api_error request.pathname response.status text)
  parse text

-- The checks of the `try` block up to the relaying: the status and the error that end them early, or what they
-- give.
pub data Checked : Type 0 where
  refused : ℕ → Text → Checked
  relaying : RelayMethod → RelayPaymentInput → Checked

abbrev pub refuse : ℕ → Text → Attempt Checked
refuse code message = ok (refused code message)

-- The last checks, for an action of the chain.
unfoldable pub relaying_of :
    Server
    → RelayRequest
    → RelayMethod
    → Text
    → Text
    → EvmAsset
    → PaymentActions
    → FundingAction
    → Attempt Checked
relaying_of server request method payer signature asset actions action =
    elim (contract_environment_for_chain_id actions.actions_chain_id) [
      | none ↦
          refuse 400
            (lit "No runtime profile for chain " ++ decimal actions.actions_chain_id ++ lit ".")
      | some environment ↦
          if chain_id environment == actions.actions_chain_id
          then (do
            key ← evm_relayer_private_key server request
            account ← server.address_of_key key
            settlement ←
                required_address server.viem (string actions.settlement_contract)
                  (lit "settlementContract")
            let connection : Connection = record {
              chain = chain_id environment;
              rpc_url = asset.rpc_url;
            }
            ok (
                relaying method (record {
                  action = action;
                  payer_address = payer;
                  public_client = connection;
                  relayer_address = account;
                  settlement = settlement;
                  signature = signature;
                  wallet_client = record { key = key; connection = connection };
                })))
          else refuse 409 (
              lit "Runtime profile chain "
              ++ decimal (chain_id environment)
              ++ lit " does not match checkout chain "
              ++ decimal actions.actions_chain_id
              ++ lit ".")
    ]

-- The checks of the requested action.
unfoldable pub check_action :
    Server → RelayRequest → RelayMethod → Text → Text → EvmAsset → PaymentActions → Attempt Checked
check_action server request method payer signature asset actions =
    elim (find (λ a. str_eq a.method (method_text method)) actions.actions) [
      | none ↦ refuse 400 (lit "requested relayer action is not available.")
      | some action ↦
          if nonempty (action.disabled_reason or_use [])
          then refuse 400 (action.disabled_reason or_use [])
          else if action.gasless
          then relaying_of server request method payer signature asset actions action
          else refuse 400 (lit "requested action is not relayer-backed.")
    ]

abbrev pub check_chain :
    Server → RelayRequest → RelayMethod → Text → Text → EvmAsset → PaymentActions → Attempt Checked
check_chain server request method payer signature asset actions =
    if actions.actions_chain_id == asset.asset_chain_id
    then check_action server request method payer signature asset actions
    else refuse 409 (lit "checkout asset and payment action chain mismatch.")

-- The request for the payment actions of a payer.
abbrev pub actions_request : Text → Text → RustRequest
actions_request pathname payer = record {
  pathname = pathname;
  posted = some (object (property (lit "payerAddress") (string payer) end));
}

unfoldable pub check_asset :
    Server → RelayRequest → RelayMethod → Text → Text → Text → EvmAsset → Attempt Checked
check_asset server request method payer signature path asset = do
  actions ←
      rust_json server server.parse_actions
        (actions_request (path ++ lit "/evm-payment-actions") payer)
  check_chain server request method payer signature asset actions

unfoldable pub check_request : Server → RelayRequest → Attempt Checked
check_request server request = do
  let body = request.json or_use object end
  method_value ← read_property server.viem body (lit "method")
  method ← relay_method method_value
  payer_value ← read_property server.viem body (lit "payerAddress")
  payer ← required_address server.viem payer_value (lit "payerAddress")
  signature_value ← read_property server.viem body (lit "signature")
  signature ← required_signature signature_value
  encoded ← server.encode_uri_component request.checkout_id
  let path = lit "/api/checkout/" ++ encoded
  checkout ← rust_json server server.parse_checkout (record { pathname = path; posted = none })
  let unpayable = refuse 400 (lit "checkout is not an evm_erc20 payment.")
  elim checkout.evm_asset [
    | none ↦ unpayable
    | some asset ↦
        if checkout.has_payment_intent
        then check_asset server request method payer signature path asset
        else unpayable
  ]

-- The `catch` block.
unfoldable pub caught_reply : Failure → Reply
caught_reply (rust_api_error pathname status body) =
    rejection status (if nonempty body then body else rust_api_message pathname status body)
caught_reply (route_error message status) = rejection 400 message
caught_reply (error message) = rejection 400 message
caught_reply not_an_error = rejection 400 (lit "EVM relayer submission failed.")

abbrev pub reply_of : Attempt Reply → Reply
reply_of (throw e) = caught_reply e
reply_of (ok reply) = reply

abbrev pub relayed_reply : RelayRequest → RelayMethod → RelayPaymentInput → Text → Receipt → Reply
relayed_reply request method input tx_hash receipt = record {
  reply_status = 200;
  reply_body =
      relayed_body input.public_client.chain request.checkout_id tx_hash method
        input.relayer_address receipt;
}

-- The end of the `try` block.
abbrev pub relayed :
    Server → RelayRequest → RelayMethod → RelayPaymentInput → Attempt Text → Attempt Reply
relayed server request method input sent = do
  tx_hash ← sent
  receipt ← server.client.wait_for_transaction_receipt tx_hash
  ok (relayed_reply request method input tx_hash receipt)

unfoldable pub relay_checked : Server → RelayRequest → Attempt Checked → Reply × List Submission
relay_checked server request (throw e) = (caught_reply e, [])
relay_checked server request (ok (refused code message)) = (rejection code message, [])
relay_checked server request (ok (relaying method input)) =
    let (sent, submissions) = relay_payment server.viem server.client method input in
    (reply_of (relayed server request method input sent), submissions)

-- The handler for the gate's answer.
unfoldable pub after_gate : Server → RelayRequest → Attempt Bool → Attempt Reply × List Submission
after_gate server request (throw e) = (throw e, [])
after_gate server request (ok false) =
    (ok (rejection 404 (lit "EVM relayer is not enabled for this environment.")), [])
after_gate server request (ok true) =
    let (reply, submissions) = relay_checked server request (check_request server request) in
    (ok reply, submissions)

-- The reply with the transactions submitted; a throw is one of the gate's, outside the `try` block.
unfoldable pub post : Server → RelayRequest → Attempt Reply × List Submission
post server request = after_gate server request (can_submit_evm_relay server request)
