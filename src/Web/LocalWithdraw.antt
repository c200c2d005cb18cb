-- ===== src/Web/LocalWithdraw.antt =====
-- apps/web/app/api/dev/local-evm-withdraw/route.ts: withdrawals that the development server signs and
-- submits on the local chain. viem, the random identifiers and the variables are parameters.
pub mod Laws
use zamapay.Prelude.{
  ℕ, ◌+◌, Bool, true, false, ◌&&◌, not, Option, none, some, List, [], ◌∷◌, ◌++◌, ◌==◌, ◌or_use◌,
  ◌or_try◌, length, if◌then◌else◌,
}
use zamapay.Prelude.Text.{Text, lit, starts_with}
use zamapay.Prelude.Decimal.{decimal}
use zamapay.Js.{
  Value, number, string, object, property, end, member, Number, int, pos, is_safe_integer,
}
use zamapay.Web.Errors.{
  Failure, Attempt, ok, throw, fail, error, error_message, ensure, ◌>>=◌, ◌>>◌,
}
use zamapay.Web.Environment.{
  ContractEnvironment, local_dev, sepolia, ProfileVariables, public_contract_environment, chain_id,
  environment_text,
}
use zamapay.Web.Gates.{can_use_local_dev_server_bridge}
use zamapay.Web.Receipts.{JsonReply, error_reply}
use zamapay.Web.Relay.{Viem, read_property, required_address, required_bytes32}

-- The message of `EvmWithdraw` that the server signs, with the domain's chain and contract.
pub record EvmWithdraw : Type 0 where
  pub domain_chain : ℕ
  pub verifying_contract : Text
  pub amount : ℕ
  pub deadline : ℕ
  pub project : Text
  pub recipient : Text
  pub token : Text
  pub withdrawal_id : Text

-- The call of `withdrawMerchant` at a contract.
pub record WithdrawCall : Type 0 where
  pub contract : Text
  pub call_project : Text
  pub call_token : Text
  pub call_recipient : Text
  pub call_amount : ℕ
  pub call_withdrawal_id : Text
  pub call_deadline : ℕ
  pub signature : Text

pub record WithdrawServer : Type 0 where
  pub variables : ProfileVariables
  pub node_env : Option Text
  pub authorizer_key : Option Text
  pub submitter_key : Option Text
  pub hostname : Text → Attempt Text
  pub viem : Viem
  pub account_of : Text → Attempt Text
  pub block_timestamp : Attempt ℕ
  pub random_bytes32 : Text
  pub sign_typed_data : Text → EvmWithdraw → Attempt Text
  pub write_contract : Text → WithdrawCall → Attempt Text
  pub wait_for_receipt : Text → Attempt (Unit {0})

pub record WithdrawRequest : Type 0 where
  pub url : Text
  pub json : Option Value

abbrev default_authorizer_key : Text
default_authorizer_key = lit "0xac0974bec39a17e36ba4a6b4d238ff944bacb478cbed5efcae784d7bf4f2ff80"

abbrev positive_safe : Number → Text → Attempt ℕ
positive_safe (int (pos n)) name =
    if is_safe_integer (int (pos n)) && not (n == 0)
    then ok n
    else fail (name ++ lit " must be a positive safe integer.")
positive_safe _ name = fail (name ++ lit " must be a positive safe integer.")

unfoldable pub required_safe_integer : Value → Text → Attempt ℕ
required_safe_integer (number n) name = positive_safe n name
required_safe_integer _ name = fail (name ++ lit " must be a positive safe integer.")

-- What the checks of the body give, after its chain.
pub record WithdrawFields : Type 0 where
  pub field_amount : ℕ
  pub field_recipient : Text
  pub field_contract : Text
  pub field_project : Text
  pub field_token : Text

-- A message signed by the account of a key.
pub record Signed : Type 0 where
  pub key : Text
  pub message : EvmWithdraw
  pub signed_with : Text

-- The chain that the body names wrongly, or the withdrawal signed.
pub data Prepared : Type 0 where
  wrong_chain : ContractEnvironment → Prepared
  prepared : Signed → Prepared

module _ (server : WithdrawServer) where
  unfoldable pub can_submit_local_evm_withdraw : WithdrawRequest → Attempt Bool
  can_submit_local_evm_withdraw request = do
    environment ← public_contract_environment server.variables
    can_use_local_dev_server_bridge server.hostname (record {
      contract_env = some (environment_text environment);
      switch = none;
      node_env = server.node_env;
      request_url = request.url;
    })

  unfoldable pub local_withdraw_authorizer_private_key : Attempt Text
  local_withdraw_authorizer_private_key = do
    let value = server.authorizer_key or_use server.submitter_key or_use default_authorizer_key
    ensure (starts_with value (lit "0x") && (length value == 66)) (
        error
          (lit "ZAMAPAY_LOCAL_EVM_WITHDRAW_AUTHORIZER_PRIVATE_KEY must be a 32-byte private key."))
    ok value

  -- The fields of the body that are read after its chain.
  unfoldable pub withdraw_fields : Value → Attempt WithdrawFields
  withdraw_fields body = do
    amount ← required_safe_integer (member body (lit "amountMinorUnits")) (lit "amountMinorUnits")
    recipient ←
        required_address server.viem (member body (lit "recipientAddress")) (lit "recipientAddress")
    contract ←
        required_address server.viem (member body (lit "settlementContract"))
          (lit "settlementContract")
    project ← required_bytes32 (member body (lit "settlementProjectId")) (lit "settlementProjectId")
    token ← required_address server.viem (member body (lit "tokenContract")) (lit "tokenContract")
    ok (record {
      field_amount = amount;
      field_recipient = recipient;
      field_contract = contract;
      field_project = project;
      field_token = token;
    })

  abbrev pub message_for : ℕ → WithdrawFields → ℕ → EvmWithdraw
  message_for chain fields timestamp = record {
    domain_chain = chain;
    verifying_contract = fields.field_contract;
    amount = fields.field_amount;
    deadline = timestamp + 3600;
    project = fields.field_project;
    recipient = fields.field_recipient;
    token = fields.field_token;
    withdrawal_id = server.random_bytes32;
  }

  -- The contract call of a signed message.
  abbrev pub withdraw_call : EvmWithdraw → Text → WithdrawCall
  withdraw_call message signature = record {
    contract = message.verifying_contract;
    call_project = message.project;
    call_token = message.token;
    call_recipient = message.recipient;
    call_amount = message.amount;
    call_withdrawal_id = message.withdrawal_id;
    call_deadline = message.deadline;
    signature = signature;
  }

  abbrev json_of : EvmWithdraw → Text → Value
  json_of message hash = object (
      property (lit "amountMinorUnits") (number (int (pos message.amount))) (
        property (lit "chainId") (number (int (pos message.domain_chain))) (
          property (lit "chainTxHash") (string hash) (
            property (lit "recipientAddress") (string message.recipient) (
              property (lit "settlementContract") (string message.verifying_contract) (
                property (lit "settlementProjectId") (string message.project) (
                  property (lit "tokenContract") (string message.token)
                    (property (lit "withdrawalId") (string message.withdrawal_id) end))))))))

  abbrev pub withdraw_failed : Failure → JsonReply
  withdraw_failed e = error_reply 400 (error_message e or_use lit "Local ERC20 withdraw failed.")

  -- The reply for a submitted call.
  abbrev mined : EvmWithdraw → Attempt Text → Attempt JsonReply
  mined message sent = do
    hash ← sent
    server.wait_for_receipt hash
    ok (record { reply_status = 200; json = json_of message hash })

  abbrev pub reply_or_failed : Attempt JsonReply → JsonReply
  reply_or_failed (throw e) = withdraw_failed e
  reply_or_failed (ok reply) = reply

  unfoldable pub sign_withdraw : ContractEnvironment → Value → Attempt Prepared
  sign_withdraw environment body = do
    fields ← withdraw_fields body
    key ← local_withdraw_authorizer_private_key
    account ← server.account_of key
    timestamp ← server.block_timestamp
    let message = message_for (chain_id environment) fields timestamp
    signature ← server.sign_typed_data key message
    ok (prepared (record { key = key; message = message; signed_with = signature }))

  abbrev check_withdraw_chain : ContractEnvironment → Value → ℕ → Attempt Prepared
  check_withdraw_chain environment body chain =
      if chain == chain_id environment
      then sign_withdraw environment body
      else ok (wrong_chain environment)

  unfoldable pub prepare_withdraw : WithdrawRequest → Attempt Prepared
  prepare_withdraw request = do
    let body = request.json or_use object end
    environment ← public_contract_environment server.variables
    chain_value ← read_property server.viem body (lit "chainId")
    chain ← required_safe_integer chain_value (lit "chainId")
    check_withdraw_chain environment body chain

  unfoldable pub submit_withdraw : Attempt Prepared → JsonReply × List WithdrawCall
  submit_withdraw (throw e) = (withdraw_failed e, [])
  submit_withdraw (ok (wrong_chain environment)) =
      (error_reply 400 (lit "chainId must be " ++ decimal (chain_id environment) ++ lit "."), [])
  submit_withdraw (ok (prepared signed)) =
      let call = withdraw_call signed.message signed.signed_with in
      (reply_or_failed (mined signed.message (server.write_contract signed.key call)), call ∷ [])

  unfoldable pub withdraw_after_gate :
      WithdrawRequest → Attempt Bool → Attempt JsonReply × List WithdrawCall
  withdraw_after_gate request (throw e) = (throw e, [])
  withdraw_after_gate request (ok false) = (
    ok (
        error_reply 404
          (lit "local ERC20 withdraw is available only for local non-production verification.")),
    [],
  )
  withdraw_after_gate request (ok true) =
      let (reply, calls) = submit_withdraw (prepare_withdraw request) in (ok reply, calls)

  -- `POST`, with the transactions submitted.
  unfoldable pub post_withdraw : WithdrawRequest → Attempt JsonReply × List WithdrawCall
  post_withdraw request = withdraw_after_gate request (can_submit_local_evm_withdraw request)
