-- ===== src/Web/Finalize/Laws.antt =====
-- What the projection route tells the operator's API, and on what evidence.
use zamapay.Prelude.{ℕ, ◌≡◌, refl, ap, true, ◌or_use◌, Option, none, some, List, [], ◌∷◌, inl, inr}
use zamapay.Prelude.Text.{Text, lit}
use zamapay.Js.{Value, object, end, member}
use zamapay.Web.Errors.{
  Attempt, ok, throw, ensure, ensure-true, Outcome-cases, Passes, >>=-Passes, Passes-ok,
}
use zamapay.Web.Environment.{ContractEnvironment, local_dev, sepolia}
use zamapay.Web.Receipts.{
  successful_receipt, emitted_event, successful_receipt-ok, emitted_event-ok, Emitted,
}
use zamapay.Web.Relay.{read_property}
use zamapay.Web.Relay.Laws.{read_property-ok}
use zamapay.Web.Finalize.Body.{
  AsksFor, payment_hash-some, requested_invoice-some, requested-NamesInvoice,
}
use zamapay.Web.Finalize.{
  payment_hash, requested_invoice, PaymentFinalized, LocalFinalized, FinalizedPayment, Posted,
  payment_projection, confirmations_of, FinalizeServer, ActiveSettlement, Target, by_hash,
  by_invoice, active_settlement, find_finalized_payment, finalize_submitted_payment, paid_of,
  paid_without_hash, project_payment, settled_payment, project_settled, invoice_of, project_request,
  projection_of, post_finalized,
}

module _ (server : FinalizeServer) where
  -- The invoice of an event: the one that the request names, or else the one that the settlement
  -- contract has for the event's order.
  abbrev pub IsInvoiceOf : ActiveSettlement → Option ℕ → PaymentFinalized → ℕ → Type 0
  IsInvoiceOf active (some named) event id = id ≡ named
  IsInvoiceOf active none event id =
      server.checkout_id_of active.settlement_address event.order_commitment ≡ ok id

  invoice_of-IsInvoiceOf :
      (active : ActiveSettlement) (requested : Option ℕ) (event : PaymentFinalized) {id : ℕ}
      → invoice_of server active requested event ≡ ok id
      → IsInvoiceOf active requested event id
  invoice_of-IsInvoiceOf active (some named) event h = cc
  invoice_of-IsInvoiceOf active none event h = h

  -- The chain's evidence for a payment: the event that its transaction emitted first at the settlement
  -- contract is accepted and the payment is of its invoice, or the local chain finalized and accepted
  -- the payment.
  abbrev pub IsEvidence : ActiveSettlement → Target → FinalizedPayment → Type 0
  IsEvidence active (by_hash hash requested) paid =
      (event : PaymentFinalized) × Emitted server.reader active.settlement_address hash event
      × (event.accepted ≡ true)
      × IsInvoiceOf active requested event paid.chain_invoice_id
      × (paid.payment_tx_hash ≡ hash)
  IsEvidence active (by_invoice id) paid =
      (active.environment ≡ local_dev)
      × (finalized : LocalFinalized) × (server.finalize_local id ≡ ok finalized)
      × (finalized.local_accepted ≡ true)
      × (paid.chain_invoice_id ≡ finalized.local_invoice_id)
      × (paid.payer_address ≡ finalized.local_payer)
      × (paid.payment_tx_hash ≡ finalized.local_tx_hash)

  find-Passes :
      (active : ActiveSettlement) (hash : Text) (requested : Option ℕ)
      → Passes
          (IsEvidence active (by_hash hash requested))
          (find_finalized_payment server active hash requested)
  unfolding find_finalized_payment
  find-Passes active hash requested =
      >>=-Passes _ (successful_receipt server.reader _ _ hash) _ λ receipt e₁.
        >>=-Passes _ (emitted_event server.reader _ active.settlement_address receipt) _ λ event e₂.
          >>=-Passes _ (ensure event.accepted _) _ λ u e₃.
            >>=-Passes _ (invoice_of server active requested event) _ λ id e₄.
              let (there, fine) = successful_receipt-ok server.reader _ _ hash e₁ in
              (
                event,
                (
                  receipt,
                  there,
                  fine,
                  emitted_event-ok server.reader _ active.settlement_address receipt e₂,
                ),
                ensure-true _ _ e₃,
                invoice_of-IsInvoiceOf active requested event e₄,
                refl,
              )

  submitted-Passes :
      (active : ActiveSettlement) (id : ℕ)
      → active.environment ≡ local_dev
      → Passes (IsEvidence active (by_invoice id)) (finalize_submitted_payment server id)
  unfolding finalize_submitted_payment
  submitted-Passes active id l = >>=-Passes _ (server.finalize_local id) _ λ finalized e₁.
      >>=-Passes _ (ensure finalized.local_accepted _) _
        λ u e₂. (l, finalized, e₁, ensure-true _ _ e₂, refl, refl, refl)

  without_hash-Passes :
      (active : ActiveSettlement) (id : ℕ) (environment : ContractEnvironment)
      → active.environment ≡ environment
      → Passes (IsEvidence active (by_invoice id)) (paid_without_hash server environment id)
  without_hash-Passes active id local_dev l = submitted-Passes active id l
  without_hash-Passes active id sepolia l = tt

  paid-Passes :
      (active : ActiveSettlement) (target : Target)
      → Passes (IsEvidence active target) (paid_of server active target)
  paid-Passes active (by_hash hash requested) = find-Passes active hash requested
  paid-Passes active (by_invoice id) = without_hash-Passes active id active.environment refl

  -- A payment that the body asks for, settled on the chain that the server is set to.
  abbrev pub IsSettled : Value → FinalizedPayment → Type 0
  IsSettled body paid =
      (target : Target) × AsksFor body target
      × (active : ActiveSettlement) × (active_settlement server ≡ ok active)
      × IsEvidence active target paid

  abbrev Follows : FinalizedPayment → List Posted → Type 0
  Follows paid [] = Unit
  Follows paid (payment_projection other ∷ posted) = ⊥
  Follows paid (confirmations_of id finality ∷ []) =
      (id ≡ paid.chain_invoice_id)
      × (finality ≡ server.finality)
      × (v : Value) × (server.post_operator (payment_projection paid) ≡ ok v)
  Follows paid (confirmations_of id finality ∷ next ∷ posted) = ⊥

  -- What may be posted: nothing, a settled payment, or that and then its confirmations, where the
  -- payment was taken.
  abbrev pub IsProjection : Value → List Posted → Type 0
  IsProjection body [] = Unit
  IsProjection body (payment_projection paid ∷ posted) = IsSettled body paid × Follows paid posted
  IsProjection body (confirmations_of id finality ∷ posted) = ⊥

  abbrev Settled : Value → ActiveSettlement × FinalizedPayment → Type 0
  Settled body (active, paid) = IsSettled body paid

  payment-Passes :
      (body : Value) (target : Target)
      → AsksFor body target
      → Passes (Settled body) (settled_payment server target)
  payment-Passes body target asked = elim (Outcome-cases (active_settlement server)) [
    | inl (e, h) ↦ rw (h, Passes) tt
    | inr (active, h) ↦ elim (Outcome-cases (paid_of server active target)) [
      | inl (e, k) ↦ rw (h, k, Passes) tt
      | inr (paid, k) ↦
          rw (h, k, Passes)
            (
              target,
              asked,
              active,
              h,
              Passes-ok (IsEvidence active target) (paid-Passes active target) k,
            )
    ]
  ]

  project_payment-IsProjection :
      (body : Value) (active : ActiveSettlement) (paid : FinalizedPayment)
      → IsSettled body paid
      → IsProjection body (project_payment server active paid).1
  unfolding project_payment
  project_payment-IsProjection body active paid s =
      elim (Outcome-cases (server.post_operator (payment_projection paid))) [
        | inl (e, h) ↦ rw (h, project_payment, IsProjection) (s, tt)
        | inr (v, h) ↦ rw (h, project_payment, IsProjection) (s, (refl, refl, v, h))
      ]

  payment-IsProjection :
      (body : Value) (settled : Attempt (ActiveSettlement × FinalizedPayment))
      → Passes (Settled body) settled
      → IsProjection body (project_settled server settled).1
  payment-IsProjection body (throw e) _ = tt
  payment-IsProjection body (ok (active, paid)) s = project_payment-IsProjection body active paid s

  -- What the body was read as.
  abbrev IsRead : Value → Option Text × Option ℕ → Type 0
  IsRead body (hash, requested) =
      (payment_hash (member body (lit "paymentTxHash")) ≡ hash)
      × (requested_invoice (member body (lit "chainInvoiceId")) ≡ requested)

  project_request-IsProjection :
      (body : Value) (hash : Option Text) (requested : Option ℕ)
      → IsRead body (hash, requested)
      → IsProjection body (project_request server hash requested).1
  unfolding project_request
  project_request-IsProjection body none none _ = tt
  project_request-IsProjection body (some hash) requested (h, r) =
      payment-IsProjection body (settled_payment server (by_hash hash requested)) (
        payment-Passes body (by_hash hash requested)
          (payment_hash-some _ h, requested-NamesInvoice body requested r))
  project_request-IsProjection body none (some id) (h, r) =
      payment-IsProjection body (settled_payment server (by_invoice id))
        (payment-Passes body (by_invoice id) (h, requested_invoice-some _ r))

  projection_of-IsProjection :
      (body : Value) (read : Attempt (Option Text × Option ℕ))
      → Passes (IsRead body) read
      → IsProjection body (projection_of server read).1
  projection_of-IsProjection body (throw e) _ = tt
  projection_of-IsProjection body (ok (hash, requested)) r =
      project_request-IsProjection body hash requested r

  -- The route posts nothing, or one payment that the body asks for and that the chain has evidence
  -- for, and then at most the confirmations of that payment's invoice, if the payment was taken.
  pub post_finalized-IsProjection :
      (json : Option Value) → IsProjection (json or_use object end) (post_finalized server json).1
  unfolding post_finalized
  post_finalized-IsProjection json =
      let body = json or_use object end in
      projection_of-IsProjection body _ (
        >>=-Passes _ (read_property server.viem body _) _ λ invoice e₁.
          >>=-Passes _ (read_property server.viem body _) _ λ hash e₂. (
            ap payment_hash (read_property-ok server.viem body _ e₂),
            ap requested_invoice (read_property-ok server.viem body _ e₁),
          ))
