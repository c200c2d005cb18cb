-- ===== src/Web/Tests/Projects.antt =====
-- Runs of the texts of a project's amounts.
use zamapay.Prelude.{◌≡◌, refl, Option, none, some, [], ◌∷◌}
use zamapay.Prelude.Text.{Text, lit, str_eq}
use zamapay.Js.{int, pos}
use zamapay.Web.Project.{
  CheckoutSession, EvmAssetBalance, Overview, symbols_seen, session_token_symbol,
  has_evm_balance_activity, project_balance_symbol,
}
use zamapay.Web.Project.Symbols.{IsBalanceSymbol, project_balance_symbol-common}

abbrev sample_session : Text → CheckoutSession
sample_session rail = record {
  checkout_session_id = lit "c1";
  session_rail = rail;
  session_amount = int (pos 1500000);
  platform_fee = none;
}

abbrev sample_balance : EvmAssetBalance
sample_balance = record {
  balance_symbol = lit "USDC";
  balance_decimals = int (pos 6);
  confirmed_minor_units = int (pos 5);
  pending_minor_units = int (pos 0);
  exception_minor_units = int (pos 0);
  withdrawable_minor_units = int (pos 5);
}

abbrev sample_overview : Option Overview
sample_overview = some (record {
  project_id = lit "p";
  project_created_at = [];
  project_updated_at = [];
  checkout_sessions =
      sample_session (lit "zama_private") ∷ sample_session (lit "zama_private") ∷ [];
  evm_asset_balances = sample_balance ∷ [];
  evm_payment_intents = [];
  payment_rails = none;
})

symbol_example : IsBalanceSymbol sample_overview (project_balance_symbol sample_overview)
symbol_example = project_balance_symbol-common sample_overview

sees_three : symbols_seen sample_overview ≡ lit "cUSDT" ∷ lit "cUSDT" ∷ lit "USDC" ∷ []
unfolding symbols_seen session_token_symbol has_evm_balance_activity str_eq
sees_three = refl
