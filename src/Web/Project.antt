-- ===== src/Web/Project.antt =====
-- apps/web/lib/project-amounts.ts and apps/web/lib/payment-rails.ts: the symbols and texts of a project's
-- amounts over its dashboard, and its payment rails. The grouping of digits by the locale is a parameter.
pub mod Seen
pub mod Symbols
use zamapay.Prelude.{
  ℕ, Bool, true, false, not, ◌&&◌, ◌||◌, Option, none, some, List, [], ◌∷◌, ◌++◌, ◌or_use◌,
  ◌or_try◌, any, find, keep, map, ◌==◌, if◌then◌else◌,
}
use zamapay.Prelude.Text.{Text, lit, str_eq}
use zamapay.Js.{Number, int, pos}
use zamapay.Web.Amounts.{plain, FormatUnitsOptions, format_minor_token_units, format_token_units}

pub record CheckoutSession : Type 0 where
  pub checkout_session_id : Text
  pub session_rail : Text
  pub session_amount : Number
  pub platform_fee : Option Number

pub record EvmPaymentIntent : Type 0 where
  pub intent_session_id : Text
  pub intent_symbol : Text
  pub intent_decimals : Number

pub record EvmAssetBalance : Type 0 where
  pub balance_symbol : Text
  pub balance_decimals : Number
  pub confirmed_minor_units : Number
  pub pending_minor_units : Number
  pub exception_minor_units : Number
  pub withdrawable_minor_units : Number

pub record RailSetting : Type 0 where
  pub rail : Text
  pub enabled : Bool
  pub rail_project_id : Text
  pub created_at : Text
  pub updated_at : Text

pub record Overview : Type 0 where
  pub project_id : Text
  pub project_created_at : Text
  pub project_updated_at : Text
  pub checkout_sessions : List CheckoutSession
  pub evm_asset_balances : List EvmAssetBalance
  pub evm_payment_intents : List EvmPaymentIntent
  pub payment_rails : Option (List RailSetting)

abbrev pub is_zero : Number → Bool
is_zero (int (pos n)) = n == 0
is_zero _ = false

unfoldable pub has_evm_balance_activity : EvmAssetBalance → Bool
has_evm_balance_activity balance =
    not (is_zero balance.confirmed_minor_units)
    || not (is_zero balance.pending_minor_units)
    || not (is_zero balance.exception_minor_units)
    || not (is_zero balance.withdrawable_minor_units)

abbrev pub is_evm : CheckoutSession → Bool
is_evm session = str_eq session.session_rail (lit "evm_erc20")

-- `overview?.evmPaymentIntents.find(…)`
abbrev pub intent_of : CheckoutSession → Option Overview → Option EvmPaymentIntent
intent_of session none = none
intent_of session (some overview) =
    find (λ intent. str_eq intent.intent_session_id session.checkout_session_id)
      overview.evm_payment_intents

abbrev pub symbol_of : Option EvmPaymentIntent → Text
symbol_of none = lit "ERC20"
symbol_of (some intent) = intent.intent_symbol

unfoldable pub session_token_symbol : CheckoutSession → Option Overview → Text
session_token_symbol session overview =
    if is_evm session then symbol_of (intent_of session overview) else lit "cUSDT"

-- `symbols.add(symbol)`
abbrev pub add_symbol : List Text → Text → List Text
add_symbol symbols symbol =
    if any (λ other. str_eq other symbol) symbols then symbols else symbols ++ symbol ∷ []

abbrev pub add_symbols : List Text → List Text → List Text
add_symbols symbols [] = symbols
add_symbols symbols (s ∷ ss) = add_symbols (add_symbol symbols s) ss

-- The symbols that the two loops add, in their order.
unfoldable pub symbols_seen : Option Overview → List Text
symbols_seen none = []
symbols_seen (some overview) =
    map (λ session. session_token_symbol session (some overview)) overview.checkout_sessions
    ++ map (λ balance. balance.balance_symbol)
        (keep has_evm_balance_activity overview.evm_asset_balances)

abbrev pub symbol_for : List Text → Text
symbol_for [] = lit "cUSDT"
symbol_for (s ∷ []) = s
symbol_for (s ∷ t ∷ ss) = lit "stablecoin units"

unfoldable pub project_balance_symbol : Option Overview → Text
unfolding symbols_seen
project_balance_symbol overview = symbol_for (add_symbols [] (symbols_seen overview))

abbrev no_options : FormatUnitsOptions
no_options = record {
  locale = none;
  maximum_fraction_digits = none;
  minimum_fraction_digits = none;
}

-- The rails that can be described; any other is described as the first.
unfoldable pub payment_rail_label : Text → Text
payment_rail_label rail =
    if str_eq rail (lit "evm_erc20") then lit "EVM ERC20" else lit "Zama private"

unfoldable pub payment_rail_short_label : Text → Text
payment_rail_short_label rail = if str_eq rail (lit "evm_erc20") then lit "ERC20" else lit "Private"

unfoldable pub payment_rail_truth_source : Text → Text
payment_rail_truth_source rail =
    if str_eq rail (lit "evm_erc20")
    then lit "EvmCheckoutSettlement payment event"
    else lit "PrivateCheckoutSettlement invoice finality"

unfoldable pub project_payment_rail_setting : Overview → Text → RailSetting
project_payment_rail_setting overview rail =
    find (λ setting. str_eq setting.rail rail) (overview.payment_rails or_use []) or_use record {
      rail = rail;
      enabled = true;
      rail_project_id = overview.project_id;
      created_at = overview.project_created_at;
      updated_at = overview.project_updated_at;
    }

module _ (grouped : ℕ → Option Text → Text) where
  unfoldable pub format_project_minor_units : Number → Option Overview → Text
  format_project_minor_units value overview =
      format_minor_token_units grouped (plain value) no_options
        (some (project_balance_symbol overview))

  abbrev pub format_intent_amount :
      CheckoutSession → Option Overview → Option EvmPaymentIntent → Text
  format_intent_amount session overview none =
      format_token_units grouped (plain session.session_amount) (int (pos 6)) no_options
        (some (session_token_symbol session overview))
  format_intent_amount session overview (some intent) =
      format_token_units grouped (plain session.session_amount) intent.intent_decimals no_options
        (some intent.intent_symbol)

  unfoldable pub format_checkout_amount_for_project : CheckoutSession → Option Overview → Text
  format_checkout_amount_for_project session overview =
      if is_evm session
      then format_intent_amount session overview (intent_of session overview)
      else format_minor_token_units grouped (plain session.session_amount) no_options none

  unfoldable pub format_checkout_fee_for_project : CheckoutSession → Option Overview → Text
  format_checkout_fee_for_project session overview = elim session.platform_fee [
    | none ↦ lit "not quoted"
    | some fee ↦
        format_minor_token_units grouped (plain fee) no_options
          (some (session_token_symbol session overview))
  ]

  unfoldable pub format_evm_asset_amount : EvmAssetBalance → Number → Text
  format_evm_asset_amount balance amount =
      format_token_units grouped (plain amount) balance.balance_decimals no_options
        (some balance.balance_symbol)
