-- ===== src/Web/Finalize.antt =====
-- apps/web/app/api/checkout/project-finalized-payment/route.ts: the projection of a finalized private
-- payment. The manifests of contracts, viem, the local chain and the Rust API are parameters; what is
-- posted to the Rust API is recorded.
pub mod Body
pub mod Laws
use zamapay.Prelude.{
  ℕ, Bool, true, false, Option, none, some, List, [], ◌∷◌, ◌++◌, ◌or_use◌, ◌or_try◌, is_some,
  if◌then◌else◌,
}
use zamapay.Prelude.Text.{Text, lit, starts_with}
use zamapay.Prelude.Decimal.{decimal}
use zamapay.Js.{
  Value, undefined, null, number, string, object, property, end, member, Number, int, pos,
  is_safe_integer,
}
use zamapay.Web.Errors.{
  Failure, rust_api_error, route_error, error, not_an_error, Attempt, ok, throw, fail, ensure,
  ◌>>=◌, ◌>>◌,
}
use zamapay.Web.Environment.{
  ContractEnvironment, local_dev, sepolia, ProfileVariables,
  contract_environment_from_runtime_profile, chain_id,
}
use zamapay.Web.Finality.{FinalityConfig}
use zamapay.Web.Receipts.{
  JsonReply, error_reply, route_failure, ChainReader, successful_receipt, emitted_event,
}
use zamapay.Web.Relay.{is_hex, Viem, read_property}

-- The event `PrivatePaymentFinalized`.
pub record PaymentFinalized : Type 0 where
  pub accepted : Bool
  pub order_commitment : Text

-- What `finalizeLocalPrivatePayment` gives.
pub record LocalFinalized : Type 0 where
  pub local_accepted : Bool
  pub local_invoice_id : ℕ
  pub local_payer : Text
  pub local_tx_hash : Text

pub record FinalizedPayment : Type 0 where
  pub chain_invoice_id : ℕ
  pub payer_address : Text
  pub payment_tx_hash : Text

-- What is posted to the operator's API.
pub data Posted : Type 0 where
  payment_projection : FinalizedPayment → Posted
  confirmations_of : ℕ → FinalityConfig → Posted

pub record FinalizeServer : Type 0 where
  pub variables : ProfileVariables
  pub finality : FinalityConfig
  pub settlement_manifest : ContractEnvironment → Option Text
  pub manifest_chain_id : ContractEnvironment → Option ℕ
  pub label : ContractEnvironment → Text
  pub reader : ChainReader PaymentFinalized
  pub checkout_id_of : Text → Text → Attempt ℕ
  pub finalize_local : ℕ → Attempt LocalFinalized
  pub post_operator : Posted → Attempt Value
  pub viem : Viem

pub record ActiveSettlement : Type 0 where
  pub environment : ContractEnvironment
  pub settlement_address : Text

-- What a request asks to project: a transaction, with the invoice if it names one, or an invoice.
pub data Target : Type 0 where
  by_hash : Text → Option ℕ → Target
  by_invoice : ℕ → Target

abbrev pub zero_address : Text
zero_address = lit "0x0000000000000000000000000000000000000000"

-- `isHexHash(body.paymentTxHash) ? … : null`
unfoldable pub payment_hash : Value → Option Text
payment_hash (string s) = if is_hex 66 s then some s else none
payment_hash _ = none

-- `body.chainInvoiceId`, where it is a safe integer from 0
unfoldable pub requested_invoice : Value → Option ℕ
requested_invoice (number (int (pos n))) = if is_safe_integer (int (pos n)) then some n else none
requested_invoice _ = none

unfoldable pub server_contract_environment : ProfileVariables → Attempt ContractEnvironment
server_contract_environment vars =
    contract_environment_from_runtime_profile vars
      (vars.zamapay_runtime_profile or_try vars.next_public_runtime_profile)

module _ (server : FinalizeServer) where
  abbrev missing_settlement : ContractEnvironment → Failure
  missing_settlement environment =
      route_error
        (lit "PrivateCheckoutSettlement is missing from the "
          ++ server.label environment
          ++ lit " manifest.")
        409

  unfoldable pub active_settlement : Attempt ActiveSettlement
  active_settlement = do
    environment ← server_contract_environment server.variables
    elim (server.settlement_manifest environment) [
      | none ↦ throw (missing_settlement environment)
      | some address ↦
          if starts_with address (lit "0x")
          then ok (record { environment = environment; settlement_address = address })
          else throw (missing_settlement environment)
    ]

  -- `requestedChainInvoiceId ?? Number(await client.readContract(…))`
  abbrev pub invoice_of : ActiveSettlement → Option ℕ → PaymentFinalized → Attempt ℕ
  invoice_of active (some id) event = ok id
  invoice_of active none event =
      server.checkout_id_of active.settlement_address event.order_commitment

  unfoldable pub find_finalized_payment :
      ActiveSettlement → Text → Option ℕ → Attempt FinalizedPayment
  find_finalized_payment active hash requested = do
    receipt ←
        successful_receipt server.reader (lit "Finalization transaction receipt was not found.")
          (lit "Finalization transaction did not succeed.") hash
    event ←
        emitted_event server.reader
          (lit "PrivatePaymentFinalized event was not emitted by the "
            ++ server.label active.environment
            ++ lit " settlement contract.")
          active.settlement_address receipt
    ensure event.accepted (route_error (lit "PrivatePaymentFinalized was rejected.") 409)
    id ← invoice_of active requested event
    ok (record { chain_invoice_id = id; payer_address = zero_address; payment_tx_hash = hash })

  unfoldable pub finalize_submitted_payment : ℕ → Attempt FinalizedPayment
  finalize_submitted_payment id = do
    finalized ← server.finalize_local id
    ensure finalized.local_accepted (route_error (lit "PrivatePaymentFinalized was rejected.") 409)
    ok (record {
      chain_invoice_id = finalized.local_invoice_id;
      payer_address = finalized.local_payer;
      payment_tx_hash = finalized.local_tx_hash;
    })

  -- `rustJson`: an error of the API is told in a plain `Error`.
  unfoldable pub rust_error : Failure → Failure
  rust_error (rust_api_error pathname status body) =
      error (pathname ++ lit " failed with " ++ decimal status ++ lit ": " ++ body)
  rust_error e = e

  -- The payment that the request is about; without a hash it is finalized on the local chain.
  abbrev pub paid_without_hash : ContractEnvironment → ℕ → Attempt FinalizedPayment
  paid_without_hash local_dev id = finalize_submitted_payment id
  paid_without_hash sepolia id = throw (
      route_error
        (lit
          "paymentTxHash is required for Sepolia projection; the browser must finalize with the official Zama public-decrypt proof.")
        400)

  abbrev pub paid_of : ActiveSettlement → Target → Attempt FinalizedPayment
  paid_of active (by_hash hash requested) = find_finalized_payment active hash requested
  paid_of active (by_invoice id) = paid_without_hash active.environment id

  abbrev projected_json : ActiveSettlement → FinalizedPayment → Value → Value
  projected_json active paid projected = object (
      property (lit "chainId")
        (number (
          int
            (pos (server.manifest_chain_id active.environment or_use chain_id active.environment))))
        (property (lit "chainInvoiceId") (number (int (pos paid.chain_invoice_id))) (
          property (lit "paymentTxHash") (string paid.payment_tx_hash) (
            property (lit "payerAddress") (string paid.payer_address)
              (property (lit "projected") projected (property (lit "finality") null end))))))

  abbrev pub failed : Failure → JsonReply
  failed e = route_failure (lit "Payment projection failed.") e

  -- `projectPayment`: the confirmations follow, in the background, once the payment was taken.
  unfoldable pub project_payment : ActiveSettlement → FinalizedPayment → JsonReply × List Posted
  project_payment active paid = elim (server.post_operator (payment_projection paid)) [
    | throw e ↦ (failed (rust_error e), payment_projection paid ∷ [])
    | ok projected ↦ (
      record { reply_status = 200; json = projected_json active paid projected },
      payment_projection paid ∷ confirmations_of paid.chain_invoice_id server.finality ∷ [],
    )
  ]

  abbrev pub settled_payment : Target → Attempt (ActiveSettlement × FinalizedPayment)
  settled_payment target = do
    active ← active_settlement
    paid ← paid_of active target
    ok (active, paid)

  abbrev pub project_settled :
      Attempt (ActiveSettlement × FinalizedPayment) → JsonReply × List Posted
  project_settled (throw e) = (failed e, [])
  project_settled (ok (active, paid)) = project_payment active paid

  -- The handler after the body was read; what it posts, in order.
  unfoldable pub project_request : Option Text → Option ℕ → JsonReply × List Posted
  project_request none none = (
    error_reply 400
        (lit "chainInvoiceId or paymentTxHash is required for private checkout projection."),
    [],
  )
  project_request (some hash) requested = project_settled (settled_payment (by_hash hash requested))
  project_request none (some id) = project_settled (settled_payment (by_invoice id))

  abbrev pub projection_of : Attempt (Option Text × Option ℕ) → Attempt JsonReply × List Posted
  projection_of (throw e) = (throw e, [])
  projection_of (ok (hash, requested)) =
      let (reply, posted) = project_request hash requested in (ok reply, posted)

  -- `POST`; reading a property of the body `null` throws, outside the `try` block.
  unfoldable pub post_finalized : Option Value → Attempt JsonReply × List Posted
  post_finalized json = projection_of (do
    let body = json or_use object end
    invoice ← read_property server.viem body (lit "chainInvoiceId")
    hash ← read_property server.viem body (lit "paymentTxHash")
    ok (payment_hash hash, requested_invoice invoice))
