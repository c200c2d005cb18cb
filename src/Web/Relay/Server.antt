-- ===== src/Web/Relay/Server.antt =====
-- What the `POST` handler of the relayer route reads and answers, and the parameters it runs with.
use zamapay.Prelude.{ℕ, Bool, Option, List}
use zamapay.Prelude.Text.{Text}
use zamapay.Js.{Value}
use zamapay.Web.Errors.{Attempt}
use zamapay.Web.Environment.{ProfileVariables}
use zamapay.Web.Relay.{RelayMethod, FundingAction, Viem}
use zamapay.Web.Relay.Payments.{Receipt, ChainClient}

pub record EvmAsset : Type 0 where
  pub asset_chain_id : ℕ
  pub rpc_url : Text

-- `PublicCheckoutResponse`, as far as the route reads it.
pub record PublicCheckout : Type 0 where
  pub has_payment_intent : Bool
  pub evm_asset : Option EvmAsset

-- `EvmPaymentActionsResponse`, as far as the route reads it.
pub record PaymentActions : Type 0 where
  pub actions_chain_id : ℕ
  pub settlement_contract : Text
  pub actions : List FundingAction

-- A request to the Rust API: a GET, or a POST of a JSON body.
pub record RustRequest : Type 0 where
  pub pathname : Text
  pub posted : Option Value

pub record RustResponse : Type 0 where
  pub is_ok : Bool
  pub status : ℕ
  pub text : Attempt Text

-- The variables of the process, `fetch`, the parsers of JSON and URLs, viem and its clients.
pub record Server : Type 0 where
  pub variables : ProfileVariables
  pub enable_evm_relayer : Option Text
  pub evm_relayer_private_key : Option Text
  pub node_env : Option Text
  pub hostname : Text → Attempt Text
  pub encode_uri_component : Text → Attempt Text
  pub fetch : RustRequest → Attempt RustResponse
  pub parse_checkout : Text → Attempt PublicCheckout
  pub parse_actions : Text → Attempt PaymentActions
  pub address_of_key : Text → Attempt Text
  pub viem : Viem
  pub client : ChainClient

-- `json` is what `request.json()` resolves to, if it does.
pub record RelayRequest : Type 0 where
  pub url : Text
  pub checkout_id : Text
  pub json : Option Value

pub data ReplyBody : Type 0 where
  error_body : Text → ReplyBody
  relayed_body :
      (chain : ℕ) (checkout tx_hash : Text) (method : RelayMethod) (relayer : Text)
      → Receipt
      → ReplyBody

pub record Reply : Type 0 where
  pub reply_status : ℕ
  pub reply_body : ReplyBody

abbrev pub rejection : ℕ → Text → Reply
rejection code message = record { reply_status = code; reply_body = error_body message }
