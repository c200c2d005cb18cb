-- ===== src/Web/Relay/Laws.antt =====
-- What a relayed payment submits.

use zamapay.Prelude.{ℕ, ◌≤◌, ◌≡◌, refl, none, All, length, [], ◌∷◌, arith, ap, ◌∙◌}
use zamapay.Prelude.Text.{Text, lit, str_eq_iff}
use zamapay.Js.{ℤ, Value, member, int_eq_iff}
use zamapay.Web.Errors.{Attempt, ok, throw, Passes, >>=-Passes, Passes-ok}
use zamapay.Web.Relay.{
  RelayMethod, eip3009, permit2, SettlementParams, Permit2Payment, SettlementCall,
  pay_with_authorization, pay_with_permit2, Viem, required_address, required_big_int,
  required_bytes32, assert_same_address, assert_same_big_int, read_property,
}
use zamapay.Web.Relay.Payments.{
  RelayPaymentInput, ContractCall, Submission, ChainClient, relayer_gas, relayer_gas_ceilings,
  typed_authorization, settlement_args, settlement_params, permit2_args, eip3009_call, permit2_call,
  relay_call, relay_payment, submit,
}

abbrev pub payer_of : SettlementCall → Text
payer_of (pay_with_authorization params authorization) = authorization.payer
payer_of (pay_with_permit2 params payment) = payment.payer

abbrev pub params_of : SettlementCall → SettlementParams
params_of (pay_with_authorization params authorization) = params
params_of (pay_with_permit2 params payment) = params

-- The amount and the receiver that the payer's wallet signed for, in the typed data or in the permit.
abbrev pub SignedFor : Viem → RelayPaymentInput → SettlementCall → Type 0
SignedFor viem input (pay_with_authorization params authorization) =
    (typed_data : Value) × (typed_authorization input.action ≡ ok typed_data)
    × (required_address viem (member (member typed_data (lit "message")) (lit "to"))
          (lit "typedData.to")
        ≡ ok input.settlement)
    × (required_big_int (member (member typed_data (lit "message")) (lit "value"))
          (lit "typedData.value")
        ≡ ok params.gross_amount)
SignedFor viem input (pay_with_permit2 params payment) =
    (payment.permitted_token ≡ params.token)
    × (payment.permitted_amount ≡ params.gross_amount)
    × (payment.signature ≡ input.signature)

-- A contract call that takes the relayed payment and no other.
abbrev pub Matches : Viem → RelayPaymentInput → ContractCall → Type 0
Matches viem input call =
    (call.address ≡ input.settlement)
    × (call.account ≡ input.relayer_address)
    × (payer_of call.function ≡ input.payer_address)
    × SignedFor viem input call.function

pub same_address-ok : (a b name : Text) {u : Unit {0}} → assert_same_address a b name ≡ ok u → a ≡ b
unfolding assert_same_address
same_address-ok a b name h = ground (arith, str_eq_iff a b)

pub same_big_int-ok :
    (a b : ℤ) (name : Text) {u : Unit {0}} → assert_same_big_int a b name ≡ ok u → a ≡ b
unfolding assert_same_big_int
same_big_int-ok a b name h = ground (arith, int_eq_iff a b)

pub read_property-ok :
    (viem : Viem) (v : Value) (k : Text) {w : Value}
    → read_property viem v k ≡ ok w
    → member v k ≡ w
unfolding read_property
read_property-ok viem v k h = ground arith

permit2_args-signature :
    (viem : Viem) (v : Value) (signature : Text) {p : Permit2Payment}
    → permit2_args viem v signature ≡ ok p
    → p.signature ≡ signature
unfolding permit2_args
permit2_args-signature viem v signature h = ground arith

permit2_call-Passes :
    (viem : Viem) (input : RelayPaymentInput)
    → Passes (Matches viem input) (permit2_call viem input)
unfolding permit2_call
permit2_call-Passes viem input = >>=-Passes _ (settlement_args input.action) _ λ args e₁.
    >>=-Passes _ (settlement_params viem _) _ λ params e₂.
      >>=-Passes _ (permit2_args viem _ _) _ λ payment e₃.
        >>=-Passes _ (assert_same_address payment.payer input.payer_address _) _ λ u₁ e₄.
          >>=-Passes _ (assert_same_address payment.permitted_token _ _) _ λ u₂ e₅.
            >>=-Passes _ (assert_same_big_int payment.permitted_amount _ _) _ λ u₃ e₆. (
              refl,
              refl,
              same_address-ok _ _ _ e₄,
              (
                same_address-ok _ _ _ e₅,
                same_big_int-ok _ _ _ e₆,
                permit2_args-signature viem _ _ e₃,
              ),
            )

eip3009_call-Passes :
    (viem : Viem) (input : RelayPaymentInput)
    → Passes (Matches viem input) (eip3009_call viem input)
unfolding eip3009_call
eip3009_call-Passes viem input = >>=-Passes _ (typed_authorization input.action) _ λ typed_data e₁.
    >>=-Passes _ (settlement_args input.action) _ λ args _.
      >>=-Passes _ (settlement_params viem _) _ λ params _.
        >>=-Passes _ (read_property viem _ _) _ λ v _.
          >>=-Passes _ (required_address viem v _) _ λ from _.
            >>=-Passes _ (required_address viem _ _) _ λ to e₂.
              >>=-Passes _ (required_big_int _ _) _ λ value e₃.
                >>=-Passes _ (assert_same_address from input.payer_address _) _ λ u₁ e₄.
                  >>=-Passes _ (assert_same_address to input.settlement _) _ λ u₂ e₅.
                    >>=-Passes _ (assert_same_big_int value params.gross_amount _) _ λ u₃ e₆.
                      >>=-Passes _ (viem.hex_to_signature input.signature) _ λ split _.
                        >>=-Passes _ (required_bytes32 _ _) _ λ nonce _.
                          >>=-Passes _ (required_big_int _ _) _ λ after _.
                            >>=-Passes _ (required_big_int _ _) _ λ before _. (
                              refl,
                              refl,
                              same_address-ok _ _ _ e₄,
                              (
                                typed_data,
                                e₁,
                                e₂ ∙ ap ok (same_address-ok _ _ _ e₅),
                                e₃ ∙ ap ok (same_big_int-ok _ _ _ e₆),
                              ),
                            )

pub relay_call-Matches :
    (viem : Viem) (method : RelayMethod) (input : RelayPaymentInput) {call : ContractCall}
    → relay_call viem method input ≡ ok call
    → Matches viem input call
relay_call-Matches viem eip3009 input h =
    Passes-ok (Matches viem input) (eip3009_call-Passes viem input) h
relay_call-Matches viem permit2 input h =
    Passes-ok (Matches viem input) (permit2_call-Passes viem input) h

pub relayer_gas-le :
    (method : RelayMethod) (estimate : Attempt ℕ)
    → relayer_gas method estimate ≤ relayer_gas_ceilings method
unfolding relayer_gas
relayer_gas-le eip3009 (throw e) = omega arith
relayer_gas-le permit2 (throw e) = omega arith
relayer_gas-le eip3009 (ok gas) = ground arith
relayer_gas-le permit2 (ok gas) = ground arith

-- A submission of one payment, by the wallet client of the payment and on its chain.
abbrev pub Submits : Viem → RelayMethod → RelayPaymentInput → Submission → Type 0
Submits viem method input s =
    (s.client ≡ input.wallet_client)
    × (s.named_chain ≡ none)
    × Matches viem input s.call
    × (s.gas ≤ relayer_gas_ceilings method)

submit-Submits :
    (viem : Viem) (client : ChainClient) (method : RelayMethod) (input : RelayPaymentInput)
    (m : Attempt ContractCall)
    → ((call : ContractCall) → m ≡ ok call → Matches viem input call)
    → All (Submits viem method input) (submit client method input m).1
      × (length (submit client method input m).1 ≤ 1)
unfolding submit
submit-Submits viem client method input (throw e) h = (tt, omega arith)
submit-Submits viem client method input (ok call) h =
    (((refl, refl, h call refl, relayer_gas-le method _), tt), omega arith)

pub relay_payment-Submits :
    (viem : Viem) (client : ChainClient) (method : RelayMethod) (input : RelayPaymentInput)
    → All (Submits viem method input) (relay_payment viem client method input).1
      × (length (relay_payment viem client method input).1 ≤ 1)
unfolding relay_payment
relay_payment-Submits viem client method input =
    submit-Submits viem client method input _ λ call. relay_call-Matches viem method input

submit-sent :
    (client : ChainClient) (method : RelayMethod) (input : RelayPaymentInput)
    (m : Attempt ContractCall) {hash : Text}
    → (submit client method input m).0 ≡ ok hash
    → (s : Submission) × ((submit client method input m).1 ≡ s ∷ [])
      × (client.write_contract s ≡ ok hash)
unfolding submit
submit-sent client method input (throw e) h = cc
submit-sent client method input (ok call) h = (_, refl, h)

-- A payment that gives a transaction hash has submitted that transaction and no other.
pub relay_payment-sent :
    (viem : Viem) (client : ChainClient) (method : RelayMethod) (input : RelayPaymentInput)
    {hash : Text}
    → (relay_payment viem client method input).0 ≡ ok hash
    → (s : Submission) × ((relay_payment viem client method input).1 ≡ s ∷ [])
      × (client.write_contract s ≡ ok hash)
unfolding relay_payment
relay_payment-sent viem client method input h = submit-sent client method input _ h
