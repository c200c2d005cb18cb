-- ===== src/Web/LocalWithdraw/Laws.antt =====
-- When the development server submits a withdrawal, and that it is the one it signed.
use zamapay.Prelude.{
  ℕ, ◌+◌, ◌≤◌, ◌<◌, ◌≡◌, refl, Bool, true, false, not, ◌&&◌, some, none, [], All, length, arith,
  ◌or_use◌, ◌==◌,
}
use zamapay.Prelude.Text.{Text, lit}
use zamapay.Js.{
  Value, number, object, end, member, Number, int, dyadic, infinite, nan, pos, negsuc,
  is_safe_integer, max_safe_integer, undefined, null, boolean, bigint, string, array,
}
use zamapay.Web.Errors.{Attempt, ok, throw, Passes, >>=-Passes, if-Passes, Passes-ok}
use zamapay.Web.Environment.{
  ContractEnvironment, chain_id, public_contract_environment, environment_text,
}
use zamapay.Web.Gates.{GateInput, in_production}
use zamapay.Web.Gates.Laws.{production_closes}
use zamapay.Web.Relay.{read_property, required_address, required_bytes32}
use zamapay.Web.LocalWithdraw.{
  EvmWithdraw, WithdrawCall, WithdrawFields, WithdrawServer, WithdrawRequest, Prepared, wrong_chain,
  prepared, positive_safe, required_safe_integer, can_submit_local_evm_withdraw,
  local_withdraw_authorizer_private_key, withdraw_fields, message_for, withdraw_call, sign_withdraw,
  prepare_withdraw, submit_withdraw, withdraw_after_gate, post_withdraw,
}

abbrev IsAmount : ℕ → Type 0
IsAmount n = (0 < n) × (n ≤ max_safe_integer)

positive-IsAmount : (n : Number) (name : Text) → Passes IsAmount (positive_safe n name)
positive-IsAmount (int (pos n)) name =
    if-Passes IsAmount (is_safe_integer (int (pos n)) && not (n == 0)) _ _ (λ t. ground arith)
      λ _. tt
positive-IsAmount (int (negsuc n)) name = tt
positive-IsAmount (dyadic minus m k) name = tt
positive-IsAmount (infinite minus) name = tt
positive-IsAmount nan name = tt

required-IsAmount : (v : Value) (name : Text) → Passes IsAmount (required_safe_integer v name)
unfolding required_safe_integer
required-IsAmount (number n) name = positive-IsAmount n name
required-IsAmount undefined name = tt
required-IsAmount null name = tt
required-IsAmount (boolean b) name = tt
required-IsAmount (bigint z) name = tt
required-IsAmount (string s) name = tt
required-IsAmount (array vs) name = tt
required-IsAmount (object ms) name = tt

module _ (server : WithdrawServer) (request : WithdrawRequest) where
  -- What the fields of a body are read as.
  abbrev IsReadFrom : Value → WithdrawFields → Type 0
  IsReadFrom body fields =
      (required_safe_integer (member body (lit "amountMinorUnits")) (lit "amountMinorUnits")
        ≡ ok fields.field_amount)
      × (required_address server.viem (member body (lit "recipientAddress"))
            (lit "recipientAddress")
          ≡ ok fields.field_recipient)
      × (required_address server.viem (member body (lit "settlementContract"))
            (lit "settlementContract")
          ≡ ok fields.field_contract)
      × (required_bytes32 (member body (lit "settlementProjectId")) (lit "settlementProjectId")
          ≡ ok fields.field_project)
      × (required_address server.viem (member body (lit "tokenContract")) (lit "tokenContract")
          ≡ ok fields.field_token)

  fields-Passes : (body : Value) → Passes (IsReadFrom body) (withdraw_fields server body)
  unfolding withdraw_fields
  fields-Passes body = >>=-Passes _ (required_safe_integer _ _) _ λ amount e₁.
      >>=-Passes _ (required_address server.viem _ _) _ λ recipient e₂.
        >>=-Passes _ (required_address server.viem _ _) _ λ contract e₃.
          >>=-Passes _ (required_bytes32 _ _) _ λ project e₄.
            >>=-Passes _ (required_address server.viem _ _) _ λ token e₅. (e₁, e₂, e₃, e₄, e₅)

  -- What a message says of the body: each of its fields is the body's.
  abbrev pub IsMessageOf : Value → EvmWithdraw → Type 0
  IsMessageOf body message =
      (required_safe_integer (member body (lit "amountMinorUnits")) (lit "amountMinorUnits")
        ≡ ok message.amount)
      × (required_address server.viem (member body (lit "recipientAddress"))
            (lit "recipientAddress")
          ≡ ok message.recipient)
      × (required_address server.viem (member body (lit "settlementContract"))
            (lit "settlementContract")
          ≡ ok message.verifying_contract)
      × (required_bytes32 (member body (lit "settlementProjectId")) (lit "settlementProjectId")
          ≡ ok message.project)
      × (required_address server.viem (member body (lit "tokenContract")) (lit "tokenContract")
          ≡ ok message.token)

  -- A call that carries a message, field by field.
  abbrev pub Carries : WithdrawCall → EvmWithdraw → Type 0
  Carries call message =
      (call.contract ≡ message.verifying_contract)
      × (call.call_project ≡ message.project)
      × (call.call_token ≡ message.token)
      × (call.call_recipient ≡ message.recipient)
      × (call.call_amount ≡ message.amount)
      × (call.call_withdrawal_id ≡ message.withdrawal_id)
      × (call.call_deadline ≡ message.deadline)

  -- A call that carries what the server's key signed: the fields of the body, for the chain of the
  -- server's environment, with a random identifier, a positive safe amount, and the hour after the
  -- latest block.
  abbrev pub IsSigned : WithdrawCall → Type 0
  IsSigned call =
      (environment : ContractEnvironment) × (key : Text) × (message : EvmWithdraw) × (timestamp : ℕ)
      × (public_contract_environment server.variables ≡ ok environment)
      × (local_withdraw_authorizer_private_key server ≡ ok key)
      × (server.block_timestamp ≡ ok timestamp)
      × (server.sign_typed_data key message ≡ ok call.signature)
      × Carries call message
      × IsMessageOf (request.json or_use object end) message
      × (message.withdrawal_id ≡ server.random_bytes32)
      × (message.domain_chain ≡ chain_id environment)
      × (message.deadline ≡ timestamp + 3600)
      × (0 < message.amount)
      × (message.amount ≤ max_safe_integer)

  abbrev OnPrepared : Prepared → Type 0
  OnPrepared (wrong_chain environment) = Unit
  OnPrepared (prepared signed) = IsSigned (withdraw_call server signed.message signed.signed_with)

  sign-Passes :
      (environment : ContractEnvironment)
      → public_contract_environment server.variables ≡ ok environment
      → Passes OnPrepared (sign_withdraw server environment (request.json or_use object end))
  unfolding sign_withdraw
  sign-Passes environment h = >>=-Passes _ (withdraw_fields server _) _ λ fields e₁.
      >>=-Passes _ (local_withdraw_authorizer_private_key server) _ λ key e₂.
        >>=-Passes _ (server.account_of key) _ λ account _.
          >>=-Passes _ server.block_timestamp _ λ timestamp e₃.
            >>=-Passes _ (server.sign_typed_data key _) _ λ signature e₄.
              let body = request.json or_use object end in
              let read = Passes-ok (IsReadFrom body) (fields-Passes body) e₁ in
              let (least, most) =
                Passes-ok IsAmount
                  (required-IsAmount (member body (lit "amountMinorUnits"))
                    (lit "amountMinorUnits"))
                  read.0 in
              (
                environment,
                key,
                message_for server (chain_id environment) fields timestamp,
                timestamp,
                h,
                e₂,
                e₃,
                e₄,
                (refl, refl, refl, refl, refl, refl, refl),
                read,
                refl,
                refl,
                refl,
                least,
                most,
              )

  prepare-Passes : Passes OnPrepared (prepare_withdraw server request)
  unfolding prepare_withdraw
  prepare-Passes = >>=-Passes _ (public_contract_environment server.variables) _ λ environment h.
      >>=-Passes _ (read_property server.viem _ _) _ λ chain_value _.
        >>=-Passes _ (required_safe_integer chain_value _) _ λ chain _.
          if-Passes _ (chain == chain_id environment) _ _ (λ _. sign-Passes environment h) λ _. tt

  submit-IsSigned :
      (m : Attempt Prepared)
      → Passes OnPrepared m
      → All IsSigned (submit_withdraw server m).1 × (length (submit_withdraw server m).1 ≤ 1)
  unfolding submit_withdraw
  submit-IsSigned (throw e) _ = (tt, omega arith)
  submit-IsSigned (ok (wrong_chain environment)) _ = (tt, omega arith)
  submit-IsSigned (ok (prepared signed)) h = ((h, tt), omega arith)

  after_gate-IsSigned :
      (gate : Attempt Bool)
      → All IsSigned (withdraw_after_gate server request gate).1
        × (length (withdraw_after_gate server request gate).1 ≤ 1)
  unfolding withdraw_after_gate
  after_gate-IsSigned (throw e) = (tt, omega arith)
  after_gate-IsSigned (ok false) = (tt, omega arith)
  after_gate-IsSigned (ok true) = submit-IsSigned (prepare_withdraw server request) prepare-Passes

  -- The route submits at most one transaction. It carries the message that the server's key signed,
  -- field by field: the contract, the project, the token, the recipient and the amount of the body, the
  -- random identifier, and a deadline an hour after the latest block. The message is signed for the
  -- chain of the server's environment, and its amount is a positive safe integer.
  pub post_withdraw-IsSigned :
      All IsSigned (post_withdraw server request).1 × (length (post_withdraw server request).1 ≤ 1)
  unfolding post_withdraw
  post_withdraw-IsSigned = after_gate-IsSigned _

  abbrev IsShut : Bool → Type 0
  IsShut allowed = allowed ≡ false

  gate-IsShut :
      in_production server.node_env ≡ true
      → Passes IsShut (can_submit_local_evm_withdraw server request)
  unfolding can_submit_local_evm_withdraw
  gate-IsShut h =
      >>=-Passes IsShut (public_contract_environment server.variables) _ λ environment _.
        let input : GateInput = record {
          contract_env = some (environment_text environment);
          switch = none;
          node_env = server.node_env;
          request_url = request.url;
        } in
        rw ((production_closes server.hostname input h).1, Passes) refl

  after_gate-production :
      (gate : Attempt Bool) → Passes IsShut gate → (withdraw_after_gate server request gate).1 ≡ []
  unfolding withdraw_after_gate
  after_gate-production (throw e) _ = refl
  after_gate-production (ok false) _ = refl
  after_gate-production (ok true) h = ground arith

  -- In production the route submits nothing.
  pub post_withdraw-production :
      in_production server.node_env ≡ true → (post_withdraw server request).1 ≡ []
  unfolding post_withdraw
  post_withdraw-production h = after_gate-production _ (gate-IsShut h)
