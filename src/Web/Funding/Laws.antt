-- ===== src/Web/Funding/Laws.antt =====
-- The chosen action is the best one, and the gas limit is within bounds.
use zamapay.Prelude.{
  All-keep, find-All, find-none, keep-All, keep-true, refl, zero, suc, ◌⊎◌, ℕ, ◌*◌, ◌+◌, ◌≤◌, ◌<◌,
  ◌≡◌, true, false, Option, none, some, List, All, Member, arith, find-true, keep, Option-cases,
  inl, inr, All-self,
}
use zamapay.Js.{ℤ, pos, negsuc}
use zamapay.Web.Errors.{Attempt, ok, throw}
use zamapay.Web.Relay.{FundingAction}
use zamapay.Web.Funding.{
  FundingMethod, by_eip3009, by_permit2, by_erc2612, by_approve_pay, settlement_gas_ceilings,
  settlement_gas_fallbacks, estimate_settlement_gas, add_settlement_gas_buffer, is_enabled,
  is_browser_method, is_before, sort, select_browser_funding_action,
}
use zamapay.Web.Funding.Order.{sort-All, All-sort, sort-Sorted, find-first}

-- What the browser's choice means: an enabled action of a browser method that no other such action
-- goes before, or the absence of such actions.
abbrev pub IsBest : List FundingAction → Option FundingAction → Type 0
IsBest actions (some a) =
    Member a actions
    × (is_enabled a ≡ true)
    × (is_browser_method a ≡ true)
    × All (λ b. is_enabled b ≡ true → is_browser_method b ≡ true → is_before a b ≡ true) actions
IsBest actions none = All (λ b. is_enabled b ≡ true → is_browser_method b ≡ false) actions

-- The choice is the best action, or none where there is none to choose.
pub select-IsBest :
    (actions : List FundingAction) → IsBest actions (select_browser_funding_action actions)
unfolding select_browser_funding_action
select-IsBest actions =
    let enabled = keep is_enabled actions in
    elim (Option-cases (select_browser_funding_action actions)) [
      | inl e ↦
          rw (e, IsBest)
            (All-keep (λ b. is_browser_method b ≡ false) is_enabled actions
              (All-sort (λ b. is_browser_method b ≡ false) enabled
                (find-none is_browser_method (sort enabled) e)))
      | inr (a, e) ↦
          rw (e, IsBest)
            (
              find-All (λ b. Member b actions) is_browser_method (sort enabled) e
                  (sort-All (λ b. Member b actions) enabled
                    (keep-All (λ b. Member b actions) is_enabled actions (All-self actions))),
              find-All (λ b. is_enabled b ≡ true) is_browser_method (sort enabled) e
                  (sort-All (λ b. is_enabled b ≡ true) enabled (keep-true is_enabled actions)),
              find-true is_browser_method (sort enabled) e,
              All-keep (λ b. is_browser_method b ≡ true → is_before a b ≡ true) is_enabled actions
                  (All-sort (λ b. is_browser_method b ≡ true → is_before a b ≡ true) enabled
                    (find-first is_browser_method (sort enabled) (sort-Sorted enabled) e)),
            )
    ]

-- The gas limit for an estimate: six fifths of it, rounded up, for a positive estimate for which that
-- is within the ceiling of the method, and the fallback of the method for every other estimate.
abbrev pub IsGasFor : FundingMethod → Attempt ℤ → ℕ → Type 0
IsGasFor method (ok (pos (suc n))) gas =
    ((suc n * 120 ≤ settlement_gas_ceilings method * 100)
      × (suc n * 120 ≤ gas * 100)
      × (gas * 100 < suc n * 120 + 100))
    ⊎ ((settlement_gas_ceilings method * 100 < suc n * 120)
        × (gas ≡ settlement_gas_fallbacks method))
IsGasFor method _ gas = gas ≡ settlement_gas_fallbacks method

settlement_gas_range :
    (method : FundingMethod) (estimate : Attempt ℤ)
    → (0 < estimate_settlement_gas method estimate)
      × (estimate_settlement_gas method estimate ≤ settlement_gas_ceilings method)
unfolding estimate_settlement_gas add_settlement_gas_buffer
settlement_gas_range by_eip3009 estimate = ground arith
settlement_gas_range by_permit2 estimate = ground arith
settlement_gas_range by_erc2612 estimate = ground arith
settlement_gas_range by_approve_pay estimate = ground arith

buffered_gas-IsGasFor :
    (method : FundingMethod) (estimate : Attempt ℤ)
    → IsGasFor method estimate (estimate_settlement_gas method estimate)
unfolding estimate_settlement_gas add_settlement_gas_buffer
buffered_gas-IsGasFor method (throw e) = refl
buffered_gas-IsGasFor method (ok (negsuc n)) = refl
buffered_gas-IsGasFor method (ok (pos zero)) = refl
buffered_gas-IsGasFor method (ok (pos (suc n))) = ground arith

-- The gas limit is positive and within the ceiling of the method. It is six fifths of the estimate,
-- rounded up, where the estimate is positive and that is within the ceiling, and the fallback of the
-- method for every other estimate.
pub settlement_gas_bounds :
    (method : FundingMethod) (estimate : Attempt ℤ)
    → (0 < estimate_settlement_gas method estimate)
      × (estimate_settlement_gas method estimate ≤ settlement_gas_ceilings method)
      × IsGasFor method estimate (estimate_settlement_gas method estimate)
settlement_gas_bounds method estimate =
    let (positive, within) = settlement_gas_range method estimate in
    (positive, within, buffered_gas-IsGasFor method estimate)
