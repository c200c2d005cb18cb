-- ===== src/Web/Funding.antt =====
-- apps/web/components/checkout/evm-funding.ts: the choice of a funding action in the browser, its gas
-- limit, and the values that a wallet signs.
pub mod Order
pub mod Laws
pub mod Typed
use zamapay.Prelude.{
  ℕ, zero, suc, ◌+◌, ◌-◌, ◌*◌, ◌/◌, Bool, true, false, ◌&&◌, ◌||◌, not, Option, none, some, List,
  [], ◌∷◌, ◌++◌, ◌==◌, ◌or_use◌, find, keep, leb, ltb, if◌then◌else◌,
}
use zamapay.Prelude.Text.{Text, lit, nonempty, str_eq}
use zamapay.Js.{
  ℤ, pos, negsuc, Value, Values, nil, cons, Members, end, property, string, bigint, array, object,
  member, truthy, undefined,
}
use zamapay.Web.Errors.{Attempt, ok, throw, fail, ensure, error, ◌>>=◌, ◌>>◌}
use zamapay.Web.Relay.{FundingAction}

-- `EvmFundingMethod`
pub data FundingMethod : Type 0 where
  by_eip3009 by_permit2 by_erc2612 by_approve_pay : FundingMethod

abbrev pub settlement_gas_fallbacks : FundingMethod → ℕ
settlement_gas_fallbacks by_eip3009 = 350000
settlement_gas_fallbacks by_permit2 = 650000
settlement_gas_fallbacks by_erc2612 = 350000
settlement_gas_fallbacks by_approve_pay = 250000

abbrev pub settlement_gas_ceilings : FundingMethod → ℕ
settlement_gas_ceilings by_eip3009 = 700000
settlement_gas_ceilings by_permit2 = 1000000
settlement_gas_ceilings by_erc2612 = 700000
settlement_gas_ceilings by_approve_pay = 500000

-- A fifth is added, rounded up.
unfoldable pub add_settlement_gas_buffer : ℤ → Attempt ℕ
add_settlement_gas_buffer (pos (suc n)) = ok ((suc n * 120 + 100 - 1) / 100)
add_settlement_gas_buffer _ = fail (lit "Settlement gas estimate must be positive.")

abbrev pub buffered_gas : FundingMethod → Attempt ℕ → ℕ
buffered_gas method (throw e) = settlement_gas_fallbacks method
buffered_gas method (ok buffered) =
    if leb buffered (settlement_gas_ceilings method)
    then buffered
    else settlement_gas_fallbacks method

unfoldable pub estimate_settlement_gas : FundingMethod → Attempt ℤ → ℕ
unfolding add_settlement_gas_buffer
estimate_settlement_gas method estimate =
    buffered_gas method (do gas ← estimate; add_settlement_gas_buffer gas)

-- `!action.disabledReason`
abbrev pub is_enabled : FundingAction → Bool
is_enabled action = not (nonempty (action.disabled_reason or_use []))

abbrev pub is_browser_method : FundingAction → Bool
is_browser_method action =
    str_eq action.method (lit "eip3009")
    || str_eq action.method (lit "permit2")
    || str_eq action.method (lit "erc2612")
    || str_eq action.method (lit "approve_pay")

-- Whether the comparison of `left` with `right` is not positive: a lower rank, or the same rank and no
-- loss of a gasless action.
abbrev pub is_before : FundingAction → FundingAction → Bool
is_before left right =
    ltb left.rank right.rank || ((left.rank == right.rank) && (left.gasless || not right.gasless))

-- `sort` is stable: an action goes before the first one that it compares as equal to.
unfoldable pub insert : FundingAction → List FundingAction → List FundingAction
insert action [] = action ∷ []
insert action (x ∷ xs) =
    let rest = insert action xs in if is_before action x then action ∷ x ∷ xs else x ∷ rest

unfoldable pub sort : List FundingAction → List FundingAction
unfolding insert
sort [] = []
sort (x ∷ xs) = insert x (sort xs)

unfoldable pub select_browser_funding_action : List FundingAction → Option FundingAction
unfolding sort
select_browser_funding_action actions = find is_browser_method (sort (keep is_enabled actions))
