-- ===== src/Web/Tests/Checkouts.antt =====
-- Runs of the checkout's helpers and of the wallet's calls.
use zamapay.Prelude.{
  Option, ℕ, ◌≡◌, ◌≤◌, ◌<◌, ◌↔◌, refl, true, none, some, List, [], ◌∷◌, length, ◌==◌, if◌then◌else◌,
}
use zamapay.Prelude.Text.{lit, str_eq, to_lower, starts_with, trim, trim_start, is_space}
use zamapay.Js.{Value, nil, cons, array, string, number, int, pos}
use zamapay.Web.Errors.{Attempt, ok, fail, error}
use zamapay.Web.Wallet.{
  WalletRequest, eth_accounts, wallet_request_permissions, wallet_switch_ethereum_chain,
  WalletChain, Provider, ensure_wallet_chain, switch_request, add_request, chain_id_hex,
}
use zamapay.Web.Wallet.Laws.{TookChain, ensure_wallet_chain_iff}
use zamapay.Web.Checkout.{short_invoice_id, short_hex, readable_error, revert_reason}
use zamapay.Web.Checkout.Bounds.{checkout_texts-length}
use zamapay.Web.Checkout.Payer.{
  normalized_wallet_accounts, has_wallet_account, resolve_payer_address,
  resolve_preferred_payer_address,
}
use zamapay.Web.Checkout.Payer.Laws.{IsPayer, resolve-IsPayer}
use zamapay.Web.Checkout.Waiting.{
  InvoiceSnapshot, is_projected_paid, is_payment_complete, wait_from,
  wait_for_evm_payment_projection, wait_for_evm_iff,
}

-- A wallet that lists a second account once it was asked for permissions, and knows no chain.
abbrev accounts_after : List WalletRequest → Value
accounts_after (wallet_request_permissions ∷ past) =
    array (cons (string (lit "0xA1")) (cons (string (lit "0xB2")) nil))
accounts_after _ = array (cons (string (lit "0xA1")) nil)

abbrev answers : List WalletRequest → WalletRequest → Attempt Value
answers past (wallet_switch_ethereum_chain id) = fail (lit "Unrecognized chain")
answers past request = ok (accounts_after past)

abbrev sample_provider : Provider
sample_provider = record { answer = answers; code = λ e. number (int (pos 4902)) }

payer_example :
    IsPayer
      (λ s. ok s)
      sample_provider
      (some (lit "0xb2"))
      (resolve_payer_address (λ s. ok s) sample_provider (some (lit "0xb2")) [])
payer_example = resolve-IsPayer (λ s. ok s) sample_provider (some (lit "0xb2")) []

resolves_second :
    resolve_payer_address (λ s. ok s) sample_provider (some (lit "0xb2")) []
    ≡ (ok (lit "0xb2"), eth_accounts ∷ wallet_request_permissions ∷ eth_accounts ∷ [])
unfolding resolve_payer_address resolve_preferred_payer_address normalized_wallet_accounts
    has_wallet_account str_eq to_lower
resolves_second = refl

abbrev sample_chain : WalletChain
sample_chain = record {
  id = 31337;
  name = lit "Local";
  native_currency = record {
    decimals = 18;
    currency_name = lit "Ether";
    currency_symbol = lit "ETH";
  };
  rpc_urls = [];
  block_explorer_urls = none;
}

chain_example :
    ((ensure_wallet_chain sample_provider sample_chain []).0 ≡ ok tt)
    ↔ TookChain sample_provider sample_chain []
chain_example = ensure_wallet_chain_iff sample_provider sample_chain []

adds_chain : (ensure_wallet_chain sample_provider sample_chain []).0 ≡ ok tt
unfolding ensure_wallet_chain switch_request add_request chain_id_hex
adds_chain = refl

-- The payment is seen by the fifth question.
abbrev snapshot_at : ℕ → Attempt (Option InvoiceSnapshot)
snapshot_at question =
    if question == 4
    then ok (some (record { payment_truth = lit "paid"; finality_status = lit "indexing" }))
    else fail (lit "Not Found")

waiting_example :
    (((wait_for_evm_payment_projection snapshot_at).0 ≡ true)
      ↔ ((i : ℕ) × (i < 8) × (is_projected_paid snapshot_at i ≡ true)))
    × ((wait_for_evm_payment_projection snapshot_at).1 ≤ 20000)
waiting_example = wait_for_evm_iff snapshot_at

waits_for_fifth : wait_for_evm_payment_projection snapshot_at ≡ (true, 12500)
unfolding wait_for_evm_payment_projection wait_from is_projected_paid is_payment_complete str_eq
waits_for_fifth = refl

texts_example :
    (length (short_invoice_id (lit "invoice_0123456789")) ≤ 19)
    × (length (short_hex (lit "0x0123456789abcdef")) ≤ 17)
    × (length (readable_error (error (lit "boom"))) ≤ 180)
unfolding revert_reason starts_with to_lower
texts_example =
    checkout_texts-length (lit "invoice_0123456789") (lit "0x0123456789abcdef") (error (lit "boom"))
      refl

shows_reason :
    revert_reason (lit "The call Reverted with the following reason:\n  paused \nat 0x1")
    ≡ some (lit "paused")
unfolding revert_reason starts_with to_lower trim_start trim is_space
shows_reason = refl
