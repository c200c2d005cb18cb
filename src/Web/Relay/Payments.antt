-- ===== src/Web/Relay/Payments.antt =====
-- The two payments of the relayer: `relayEip3009Payment` and `relayPermit2Payment`, with the reading of
-- their arguments and the gas limit.
use zamapay.Prelude.{ℕ, ◌+◌, ◌*◌, ◌/◌, Option, none, some, List, [], ◌∷◌, leb, if◌then◌else◌}
use zamapay.Prelude.Text.{Text, lit}
use zamapay.Js.{Value, member, is_object}
use zamapay.Web.Errors.{Attempt, ok, throw, fail, ◌>>=◌, ◌>>◌}
use zamapay.Web.Relay.{
  RelayMethod, eip3009, permit2, SettlementParams, Permit2Payment, SettlementCall,
  pay_with_authorization, pay_with_permit2, FundingAction, Viem, read_property, required_address,
  required_bytes32, required_big_int, required_string, required_record, assert_same_address,
  assert_same_big_int,
}

-- What a client is made with: its chain and where it sends its requests.
pub record Connection : Type 0 where
  pub chain : ℕ
  pub rpc_url : Text

-- `walletClient`, with the key of its account.
pub record WalletClient : Type 0 where
  pub key : Text
  pub connection : Connection

-- `RelayPaymentInput`: `publicClient` is given by its connection.
pub record RelayPaymentInput : Type 0 where
  pub action : FundingAction
  pub payer_address : Text
  pub public_client : Connection
  pub relayer_address : Text
  pub settlement : Text
  pub signature : Text
  pub wallet_client : WalletClient

-- What `estimateContractGas` is given.
pub record ContractCall : Type 0 where
  pub account : Text
  pub address : Text
  pub function : SettlementCall

-- A call of `writeContract` on a wallet client; `none` stands for `chain: null`, with which the call
-- names no chain of its own.
pub record Submission : Type 0 where
  pub client : WalletClient
  pub call : ContractCall
  pub named_chain : Option ℕ
  pub gas : ℕ

pub record Receipt : Type 0 where
  pub block_number : ℕ
  pub gas_used : ℕ
  pub status : Text

-- viem's clients.
pub record ChainClient : Type 0 where
  pub estimate_contract_gas : Connection → ContractCall → Attempt ℕ
  pub write_contract : Submission → Attempt Text
  pub wait_for_transaction_receipt : Text → Attempt Receipt

abbrev pub relayer_gas_fallbacks : RelayMethod → ℕ
relayer_gas_fallbacks eip3009 = 350000
relayer_gas_fallbacks permit2 = 650000

abbrev pub relayer_gas_ceilings : RelayMethod → ℕ
relayer_gas_ceilings eip3009 = 700000
relayer_gas_ceilings permit2 = 1000000

abbrev pub typed_authorization : FundingAction → Attempt Value
typed_authorization action = elim action.authorization [
  | none ↦ fail (lit "relayed action is missing typed data.")
  | some (typed_data, args) ↦
      if is_object typed_data
      then ok typed_data
      else fail (lit "relayed action is missing typed data.")
]

abbrev pub settlement_args : FundingAction → Attempt Value
settlement_args action = elim action.authorization [
  | none ↦ fail (lit "relayed action is missing settlement arguments.")
  | some (typed_data, args) ↦
      if is_object args
      then ok args
      else fail (lit "relayed action is missing settlement arguments.")
]

unfoldable pub settlement_params : Viem → Value → Attempt SettlementParams
settlement_params viem v = do
  params ← required_record v (lit "params")
  expires_at ← required_big_int (member params (lit "expiresAt")) (lit "expiresAt")
  gross ← required_big_int (member params (lit "grossAmount")) (lit "grossAmount")
  intent ← required_bytes32 (member params (lit "intentId")) (lit "intentId")
  net ← required_big_int (member params (lit "merchantNetAmount")) (lit "merchantNetAmount")
  fee ← required_big_int (member params (lit "platformFeeAmount")) (lit "platformFeeAmount")
  project ← required_bytes32 (member params (lit "projectId")) (lit "projectId")
  token ← required_address viem (member params (lit "token")) (lit "token")
  ok (record {
    intent_id = intent;
    project_id = project;
    token = token;
    gross_amount = gross;
    merchant_net_amount = net;
    platform_fee_amount = fee;
    expires_at = expires_at;
  })

unfoldable pub permit2_args : Viem → Value → Text → Attempt Permit2Payment
permit2_args viem v signature = do
  outer ← required_record v (lit "permit2")
  permit ← required_record (member outer (lit "permit")) (lit "permit2.permit")
  permitted ← required_record (member permit (lit "permitted")) (lit "permit2.permit.permitted")
  payer ← required_address viem (member outer (lit "payer")) (lit "permit2.payer")
  deadline ← required_big_int (member permit (lit "deadline")) (lit "permit2.permit.deadline")
  nonce ← required_big_int (member permit (lit "nonce")) (lit "permit2.permit.nonce")
  amount ←
      required_big_int (member permitted (lit "amount")) (lit "permit2.permit.permitted.amount")
  token ←
      required_address viem (member permitted (lit "token")) (lit "permit2.permit.permitted.token")
  contract ← required_address viem (member outer (lit "permit2")) (lit "permit2.permit2")
  witness ← required_bytes32 (member outer (lit "witness")) (lit "permit2.witness")
  type_string ←
      required_string (member outer (lit "witnessTypeString")) (lit "permit2.witnessTypeString")
  ok (record {
    payer = payer;
    deadline = deadline;
    nonce = nonce;
    permitted_amount = amount;
    permitted_token = token;
    permit2_contract = contract;
    signature = signature;
    witness = witness;
    witness_type_string = type_string;
  })

-- The gas limit is the estimate and a fifth of it, rounded up.
unfoldable pub relayer_gas : RelayMethod → Attempt ℕ → ℕ
relayer_gas method (throw _) = relayer_gas_fallbacks method
relayer_gas method (ok gas) =
    let buffered = (gas * 120 + 99) / 100 in
    if leb buffered (relayer_gas_ceilings method) then buffered else relayer_gas_fallbacks method

abbrev pub contract_call : RelayPaymentInput → SettlementCall → ContractCall
contract_call input function = record {
  account = input.relayer_address;
  address = input.settlement;
  function = function;
}

-- The checks of `relayEip3009Payment`, up to its gas limit.
unfoldable pub eip3009_call : Viem → RelayPaymentInput → Attempt ContractCall
eip3009_call viem input = do
  typed_data ← typed_authorization input.action
  args ← settlement_args input.action
  params ← settlement_params viem (member args (lit "params"))
  let message = member typed_data (lit "message")
  from_value ← read_property viem message (lit "from")
  from ← required_address viem from_value (lit "typedData.from")
  to ← required_address viem (member message (lit "to")) (lit "typedData.to")
  value ← required_big_int (member message (lit "value")) (lit "typedData.value")
  assert_same_address from input.payer_address (lit "typedData.from")
  assert_same_address to input.settlement (lit "typedData.to")
  assert_same_big_int value params.gross_amount (lit "typedData.value")
  split ← viem.hex_to_signature input.signature
  nonce ← required_bytes32 (member message (lit "nonce")) (lit "nonce")
  valid_after ← required_big_int (member message (lit "validAfter")) (lit "validAfter")
  valid_before ← required_big_int (member message (lit "validBefore")) (lit "validBefore")
  ok (
      contract_call input (
        pay_with_authorization params (record {
          nonce = nonce;
          payer = from;
          split = split;
          valid_after = valid_after;
          valid_before = valid_before;
        })))

-- The checks of `relayPermit2Payment`, up to its gas limit.
unfoldable pub permit2_call : Viem → RelayPaymentInput → Attempt ContractCall
permit2_call viem input = do
  args ← settlement_args input.action
  params ← settlement_params viem (member args (lit "params"))
  payment ← permit2_args viem (member args (lit "permit2")) input.signature
  assert_same_address payment.payer input.payer_address (lit "permit2.payer")
  assert_same_address payment.permitted_token params.token (lit "permit2.permitted.token")
  assert_same_big_int payment.permitted_amount params.gross_amount (lit "permit2.permitted.amount")
  ok (contract_call input (pay_with_permit2 params payment))

abbrev pub relay_call : Viem → RelayMethod → RelayPaymentInput → Attempt ContractCall
relay_call viem eip3009 input = eip3009_call viem input
relay_call viem permit2 input = permit2_call viem input

-- The gas limit and the submission, once the checks have passed.
unfoldable pub submit :
    ChainClient
    → RelayMethod
    → RelayPaymentInput
    → Attempt ContractCall
    → Attempt Text × List Submission
submit client method input (throw e) = (throw e, [])
submit client method input (ok call) =
    let s : Submission = record {
      client = input.wallet_client;
      call = call;
      named_chain = none;
      gas = relayer_gas method (client.estimate_contract_gas input.public_client call);
    } in
    (client.write_contract s, s ∷ [])

-- `relayEip3009Payment` and `relayPermit2Payment`, with the submissions they make.
unfoldable pub relay_payment :
    Viem → ChainClient → RelayMethod → RelayPaymentInput → Attempt Text × List Submission
relay_payment viem client method input = submit client method input (relay_call viem method input)
