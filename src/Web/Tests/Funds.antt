-- ===== src/Web/Tests/Funds.antt =====
-- Runs of the browser's funding code.
use zamapay.Prelude.{ℕ, ◌≤◌, ◌<◌, ◌≡◌, refl, Option, none, some, List, [], ◌∷◌, Bool, true, false}
use zamapay.Prelude.Text.{Text, lit, str_eq}
use zamapay.Js.{Value, ℤ, string, array, nil, cons, pos}
use zamapay.Web.Errors.{Attempt, ok}
use zamapay.Web.Relay.{FundingAction}
use zamapay.Web.Funding.{
  by_permit2, settlement_gas_ceilings, estimate_settlement_gas, select_browser_funding_action,
}
use zamapay.Web.Funding.Laws.{IsBest, IsGasFor, select-IsBest, settlement_gas_bounds}
use zamapay.Web.Funding.Typed.{normalize_typed_value}
use zamapay.Web.Funding.Typed.Laws.{HasNoNumerals, printed, normalize-printed}

abbrev action_of : Text → ℕ → Bool → Option Text → FundingAction
action_of method rank gasless reason = record {
  method = method;
  rank = rank;
  gasless = gasless;
  disabled_reason = reason;
  authorization = none;
}

abbrev three_actions : List FundingAction
three_actions =
    action_of (lit "eip3009") 1 true (some (lit "off"))
    ∷ action_of (lit "approve_pay") 2 false none
    ∷ action_of (lit "permit2") 2 true none
    ∷ []

chooses_permit2 :
    select_browser_funding_action three_actions ≡ some (action_of (lit "permit2") 2 true none)
unfolding select_browser_funding_action str_eq
chooses_permit2 = refl

IsBest_example : IsBest three_actions (select_browser_funding_action three_actions)
IsBest_example = select-IsBest three_actions

abbrev estimate : Attempt ℤ
estimate = ok (pos 200001)

gas_example :
    (0 < estimate_settlement_gas by_permit2 estimate)
    × (estimate_settlement_gas by_permit2 estimate ≤ settlement_gas_ceilings by_permit2)
    × IsGasFor by_permit2 estimate (estimate_settlement_gas by_permit2 estimate)
gas_example = settlement_gas_bounds by_permit2 estimate

abbrev numerals : Value
numerals = array (cons (string (lit "12")) (cons (string (lit "0x12")) nil))

normalize_example :
    HasNoNumerals (normalize_typed_value numerals)
    × (printed (normalize_typed_value numerals) ≡ printed numerals)
normalize_example = normalize-printed numerals
