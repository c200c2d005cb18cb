-- ===== src/Web/Checkout/Waiting.antt =====
-- The waiting for the projection of a payment: `waitForEvmPaymentProjection` and
-- `waitForPaymentProjection`. What the API answers about the invoice is a parameter, by the number of the
-- question.
use zamapay.Prelude.{
  ℕ, zero, suc, ◌+◌, ◌*◌, ◌≤◌, ◌<◌, ◌≡◌, ◌↔◌, Bool, true, false, Option, none, some, ◌||◌, arith,
  if◌then◌else◌, Bool-cases, inl, inr, subst,
}
use zamapay.Prelude.Text.{Text, lit, str_eq}
use zamapay.Web.Errors.{Attempt, ok, throw}

pub record InvoiceSnapshot : Type 0 where
  pub payment_truth : Text
  pub finality_status : Text

unfoldable pub is_payment_complete : InvoiceSnapshot → Bool
is_payment_complete snapshot =
    str_eq snapshot.payment_truth (lit "paid")
    || str_eq snapshot.finality_status (lit "finality_safe")

module _ (invoice_record : ℕ → Attempt (Option InvoiceSnapshot)) where
  unfoldable pub is_projected_paid : ℕ → Bool
  is_projected_paid question = elim (invoice_record question) [
    | throw _ ↦ false
    | ok none ↦ false
    | ok (some snapshot) ↦ is_payment_complete snapshot
  ]

  -- The rounds left, each after a delay of 2,500 ms; what was waited comes with the answer.
  unfoldable pub wait_from : ℕ → ℕ → Bool × ℕ
  wait_from zero question = (false, 0)
  wait_from (suc left) question =
      let rest = wait_from left (question + 1) in
      if is_projected_paid question then (true, 2500) else (rest.0, rest.1 + 2500)

  unfoldable pub wait_for_evm_payment_projection : Bool × ℕ
  unfolding wait_from
  wait_for_evm_payment_projection = wait_from 8 0

  abbrev pub projected_or_thrown : Bool → Attempt (Unit {0}) → Attempt Bool
  projected_or_thrown paid (ok _) = ok true
  projected_or_thrown paid (throw e) = if paid then ok true else throw e

  unfoldable pub wait_for_payment_projection : Attempt (Unit {0}) → Attempt Bool
  wait_for_payment_projection projected = projected_or_thrown (is_projected_paid 0) projected

  wait_from_time : (left question : ℕ) → (wait_from left question).1 ≤ left * 2500
  unfolding wait_from
  wait_from_time zero question = omega arith
  wait_from_time (suc left) question = ground (arith, wait_from_time left (question + 1))

  paid_at : {m n : ℕ} → m ≡ n → is_projected_paid m ≡ true → is_projected_paid n ≡ true
  paid_at e p = subst (λ k. is_projected_paid k ≡ true) e p

  wait_from_sees :
      (left question i : ℕ)
      → i < left
      → is_projected_paid (question + i) ≡ true
      → (wait_from left question).0 ≡ true
  unfolding wait_from
  wait_from_sees zero question i h p = elim h [ ]
  wait_from_sees (suc left) question zero h p =
      ground (arith, paid_at {m = question + 0} {n = question} (omega arith) p)
  wait_from_sees (suc left) question (suc i) h p = ground (
    arith,
    wait_from_sees left (question + 1) i (omega arith)
        (paid_at {m = question + suc i} (omega arith) p),
  )

  wait_from_seen :
      (left question : ℕ)
      → (wait_from left question).0 ≡ true
      → (i : ℕ) × (i < left) × (is_projected_paid (question + i) ≡ true)
  unfolding wait_from
  wait_from_seen zero question h = cc
  wait_from_seen (suc left) question h = elim (Bool-cases (is_projected_paid question)) [
    | inl now ↦ (0, omega arith, paid_at (omega arith) now)
    | inr not_yet ↦
        let later : (wait_from left (question + 1)).0 ≡ true = ground arith in
        let (i, below, p) = wait_from_seen left (question + 1) later in
        (suc i, omega arith, paid_at (omega arith) p)
  ]

  -- The waiting ends with `true` exactly where one of eight questions finds the payment complete, and
  -- it waits for at most twenty seconds.
  pub wait_for_evm_iff :
      ((wait_for_evm_payment_projection.0 ≡ true)
        ↔ ((i : ℕ) × (i < 8) × (is_projected_paid i ≡ true)))
      × (wait_for_evm_payment_projection.1 ≤ 20000)
  unfolding wait_for_evm_payment_projection
  wait_for_evm_iff = (
    (
      λ h. let (i, below, p) = wait_from_seen 8 0 h in (i, below, paid_at (omega arith) p),
      λ (i, below, p). wait_from_sees 8 0 i below (paid_at (omega arith) p),
    ),
    wait_from_time 8 0,
  )
