-- ===== src/Web/Wallet/Laws.antt =====
-- When the wallet is on the chain, and when its permissions are gone.
use zamapay.Prelude.{◌≡◌, ◌↔◌, ◌⊎◌, inl, refl, true, List, ◌∷◌, arith}
use zamapay.Js.{Value}
use zamapay.Web.Errors.{Failure, Attempt, ok, throw}
use zamapay.Web.Wallet.{
  Provider, WalletChain, WalletRequest, is_code, switch_request, add_request, done_with, switched,
  ensure_wallet_chain,
}

module _ (provider : Provider) where
  -- The answer to the switch, and then to the addition, that puts the wallet on the chain.
  abbrev pub TookAfter : WalletChain → List WalletRequest → Attempt Value → Type 0
  TookAfter chain past answer =
      ((v : Value) × (answer ≡ ok v))
      ⊎ ((e : Failure) × (answer ≡ throw e)
          × (is_code 4902 (provider.code e) ≡ true)
          × (v : Value) × (provider.answer past (add_request chain) ≡ ok v))

  -- The wallet took the chain: it switched to it, or it did not know it and added it then.
  abbrev pub TookChain : WalletChain → List WalletRequest → Type 0
  TookChain chain past =
      TookAfter chain (switch_request chain ∷ past) (provider.answer past (switch_request chain))

  done_iff : (m : Attempt Value) → (done_with provider m ≡ ok tt) ↔ ((v : Value) × (m ≡ ok v))
  done_iff (ok v) = (λ _. (v, refl), λ _. refl)
  done_iff (throw e) = (λ h. cc, λ (v, h). cc)

  switched_iff :
      (chain : WalletChain) (past : List WalletRequest) (answer : Attempt Value)
      → ((switched provider chain past answer).0 ≡ ok tt) ↔ TookAfter chain past answer
  switched_iff chain past (ok v) = (λ _. inl (v, refl), λ _. refl)
  switched_iff chain past (throw e) =
      ground (arith, done_iff (provider.answer past (add_request chain)))

  -- `ensureWalletChain` returns exactly where the wallet took the chain.
  pub ensure_wallet_chain_iff :
      (chain : WalletChain) (past : List WalletRequest)
      → ((ensure_wallet_chain provider chain past).0 ≡ ok tt) ↔ TookChain chain past
  unfolding ensure_wallet_chain
  ensure_wallet_chain_iff chain past =
      switched_iff chain (switch_request chain ∷ past) (provider.answer past (switch_request chain))
