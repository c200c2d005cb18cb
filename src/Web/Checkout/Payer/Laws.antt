-- ===== src/Web/Checkout/Payer/Laws.antt =====
-- The payer that is resolved is an account that the wallet lists.
use zamapay.Prelude.{
  ℕ, ◌≡◌, ◌⊎◌, ◌or_use◌, refl, true, false, Option, none, some, List, [], ◌∷◌, first, arith,
  Bool-cases, inl, inr,
}
use zamapay.Prelude.Text.{Text, nonempty, str_eq_refl, to_lower}
use zamapay.Js.{Value}
use zamapay.Web.Errors.{Failure, Attempt, ok, throw}
use zamapay.Web.Wallet.{
  Provider, WalletRequest, eth_accounts, eth_request_accounts, wallet_request_permissions, Asked,
}
use zamapay.Web.Checkout.Payer.{
  normalized_wallet_accounts, has_wallet_account, chosen, permitted, preferred_listed, selected_of,
  selected, resolve_preferred_payer_address, resolve_selected_payer_address, resolve_payer_address,
}

first-has_wallet_account :
    (accounts : List Text) {account : Text}
    → first accounts ≡ some account
    → has_wallet_account accounts account ≡ true
unfolding has_wallet_account
first-has_wallet_account [] h = cc
first-has_wallet_account (a ∷ accounts) {account = account} h =
    ground (arith, str_eq_refl (to_lower account))

module _ (get_address : Text → Attempt Text) (provider : Provider) where
  -- The account is among those that the wallet answered to its last request.
  abbrev pub IsListed : List WalletRequest → Text → Type 0
  IsListed [] payer = ⊥
  IsListed (request ∷ past) payer =
      (v : Value) × (provider.answer past request ≡ ok v)
      × (has_wallet_account (normalized_wallet_accounts get_address v) payer ≡ true)

  abbrev pub Prefers : Option Text → Text → Type 0
  Prefers none payer = Unit
  Prefers (some []) payer = Unit
  Prefers (some (c ∷ s)) payer = payer ≡ c ∷ s

  -- The wallet's answer has no such account.
  abbrev pub Unlisted : Option Text → Value → Type 0
  Unlisted none v = nonempty (first (normalized_wallet_accounts get_address v) or_use []) ≡ false
  Unlisted (some []) v =
      nonempty (first (normalized_wallet_accounts get_address v) or_use []) ≡ false
  Unlisted (some (c ∷ s)) v =
      has_wallet_account (normalized_wallet_accounts get_address v) (c ∷ s) ≡ false

  -- The last request failed, or its answer has no such account.
  abbrev pub IsRefused : Option Text → List WalletRequest → Failure → Type 0
  IsRefused preferred [] e = ⊥
  IsRefused preferred (request ∷ past) e =
      (provider.answer past request ≡ throw e)
      ⊎ ((v : Value) × (provider.answer past request ≡ ok v) × Unlisted preferred v)

  -- A payer is listed, and is the preferred one where there is one; without a payer the wallet refused.
  abbrev pub IsPayer : Option Text → Asked Text → Type 0
  IsPayer preferred (throw e, past) = IsRefused preferred past e
  IsPayer preferred (ok payer, past) = Prefers preferred payer × IsListed past payer

  chosen-IsPayer :
      (c : ℕ) (s : Text) (request : WalletRequest) (past : List WalletRequest)
      (answer : Attempt Value)
      → provider.answer past request ≡ answer
      → IsPayer (some (c ∷ s)) (chosen get_address provider (c ∷ s) (request ∷ past) answer)
  chosen-IsPayer c s request past (throw e) h = inl h
  chosen-IsPayer c s request past (ok v) h =
      elim (Bool-cases (has_wallet_account (normalized_wallet_accounts get_address v) (c ∷ s))) [
        | inl t ↦ rw (t, IsPayer) (refl, (v, h, t))
        | inr t ↦ rw (t, IsPayer) (inr (v, h, t))
      ]

  permitted-IsPayer :
      (c : ℕ) (s : Text) (request : WalletRequest) (past : List WalletRequest)
      (answer : Attempt Value)
      → provider.answer past request ≡ answer
      → IsPayer (some (c ∷ s)) (permitted get_address provider (c ∷ s) (request ∷ past) answer)
  permitted-IsPayer c s request past (throw e) h = inl h
  permitted-IsPayer c s request past (ok _) h =
      chosen-IsPayer c s eth_accounts (request ∷ past) _ refl

  preferred_listed-IsPayer :
      (c : ℕ) (s : Text) (request : WalletRequest) (past : List WalletRequest)
      (answer : Attempt Value)
      → provider.answer past request ≡ answer
      → IsPayer
          (some (c ∷ s))
          (preferred_listed get_address provider (c ∷ s) (request ∷ past) answer)
  preferred_listed-IsPayer c s request past (throw e) h = inl h
  preferred_listed-IsPayer c s request past (ok v) h =
      elim (Bool-cases (has_wallet_account (normalized_wallet_accounts get_address v) (c ∷ s))) [
        | inl t ↦ rw (t, IsPayer) (refl, (v, h, t))
        | inr t ↦
            rw (t, preferred_listed)
              (permitted-IsPayer c s wallet_request_permissions (request ∷ past) _ refl)
      ]

  -- A choice that has no account to prefer.
  data IsFree : Option Text → Type 0 where
    free_none : IsFree none
    free_empty : IsFree (some [])

  selected_of-IsPayer :
      (request : WalletRequest) (past : List WalletRequest) (v : Value) (found : Option Text)
      {preferred : Option Text}
      → provider.answer past request ≡ ok v
      → first (normalized_wallet_accounts get_address v) ≡ found
      → IsFree preferred
      → IsPayer preferred (selected_of get_address provider found, request ∷ past)
  selected_of-IsPayer request past v none h e free_none = inr (v, h, rw e refl)
  selected_of-IsPayer request past v none h e free_empty = inr (v, h, rw e refl)
  selected_of-IsPayer request past v (some []) h e free_none = inr (v, h, rw e refl)
  selected_of-IsPayer request past v (some []) h e free_empty = inr (v, h, rw e refl)
  selected_of-IsPayer request past v (some (c ∷ s)) h e free_none =
      (tt, (v, h, first-has_wallet_account (normalized_wallet_accounts get_address v) e))
  selected_of-IsPayer request past v (some (c ∷ s)) h e free_empty =
      (tt, (v, h, first-has_wallet_account (normalized_wallet_accounts get_address v) e))

  selected-IsPayer :
      (request : WalletRequest) (past : List WalletRequest) (answer : Attempt Value)
      {preferred : Option Text}
      → provider.answer past request ≡ answer
      → IsFree preferred
      → IsPayer preferred (selected get_address provider (request ∷ past) answer)
  selected-IsPayer request past (throw e) h free = inl h
  selected-IsPayer request past (ok v) h free = selected_of-IsPayer request past v _ h refl free

  -- A payer that is resolved is among the accounts that the wallet answered to its last request, and
  -- it is the preferred address where there is one; it is not resolved only where the wallet failed
  -- that request or answered no such account.
  pub resolve-IsPayer :
      (preferred : Option Text) (past : List WalletRequest)
      → IsPayer preferred (resolve_payer_address get_address provider preferred past)
  unfolding resolve_payer_address resolve_preferred_payer_address resolve_selected_payer_address
  resolve-IsPayer none past = selected-IsPayer eth_request_accounts past _ refl free_none
  resolve-IsPayer (some []) past = selected-IsPayer eth_request_accounts past _ refl free_empty
  resolve-IsPayer (some (c ∷ s)) past = preferred_listed-IsPayer c s eth_accounts past _ refl
