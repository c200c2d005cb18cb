-- ===== src/Web/Checkout/Payer.antt =====
-- The payer of a checkout: `resolvePayerAddress`, and the address in the location.
pub mod Laws
use zamapay.Prelude.{
  ◌≡◌, refl, ap, Bool, true, false, ◌||◌, Option, none, some, List, [], ◌∷◌, ◌++◌, ◌or_try◌, any,
  first, arith, if◌then◌else◌, Bool-cases, inl, inr,
}
use zamapay.Prelude.Text.{Text, lit, nonempty, str_eq, str_eq_refl, to_lower}
use zamapay.Js.{Value, Values, nil, cons, string, array}
use zamapay.Web.Errors.{Attempt, ok, throw, fail, Passes, ok-injective}
use zamapay.Web.Wallet.{
  Provider, WalletRequest, eth_accounts, eth_request_accounts, wallet_request_permissions, Asked,
}
use zamapay.Web.Checkout.{short_hex}

-- `current` has the text of a parameter after its hash, or in its search; `getAddress` may throw.
unfoldable pub normalize_address : (Text → Attempt Text) → Option Text → Option Text
normalize_address get_address none = none
normalize_address get_address (some raw) =
    if nonempty raw
    then elim (get_address raw) [ ok address ↦ some address | throw _ ↦ none ]
    else none

-- `readPreferredPayerFromLocation` in a page, where the hash names `payer` and the search
-- `preferredPayer`.
unfoldable pub preferred_payer : (Text → Attempt Text) → Option Text → Option Text → Option Text
preferred_payer get_address in_hash in_search =
    normalize_address get_address in_hash or_try normalize_address get_address in_search

abbrev pub addresses_of : (Text → Attempt Text) → Values → List Text
addresses_of get_address nil = []
addresses_of get_address (cons (string s) vs) = elim (get_address s) [
  | ok address ↦ address ∷ addresses_of get_address vs
  | throw _ ↦ addresses_of get_address vs
]
addresses_of get_address (cons _ vs) = addresses_of get_address vs

unfoldable pub normalized_wallet_accounts : (Text → Attempt Text) → Value → List Text
normalized_wallet_accounts get_address (array vs) = addresses_of get_address vs
normalized_wallet_accounts get_address _ = []

unfoldable pub has_wallet_account : List Text → Text → Bool
has_wallet_account accounts address =
    any (λ account. str_eq (to_lower account) (to_lower address)) accounts

module _ (get_address : Text → Attempt Text) (provider : Provider) where
  abbrev current_wallet : List Text → Text
  current_wallet [] = []
  current_wallet (account ∷ accounts) = lit " Current wallet is " ++ short_hex account ++ lit "."

  abbrev pub chosen : Text → List WalletRequest → Attempt Value → Asked Text
  chosen preferred past (throw e) = (throw e, past)
  chosen preferred past (ok v) =
      if has_wallet_account (normalized_wallet_accounts get_address v) preferred
      then (ok preferred, past)
      else (
        fail (
            lit "Select CardForge wallet "
            ++ short_hex preferred
            ++ lit " to pay from the demo balance."
            ++ current_wallet (normalized_wallet_accounts get_address v)),
        past,
      )

  abbrev pub permitted : Text → List WalletRequest → Attempt Value → Asked Text
  permitted preferred past (throw e) = (throw e, past)
  permitted preferred past (ok _) =
      chosen preferred (eth_accounts ∷ past) (provider.answer past eth_accounts)

  abbrev pub preferred_listed : Text → List WalletRequest → Attempt Value → Asked Text
  preferred_listed preferred past (throw e) = (throw e, past)
  preferred_listed preferred past (ok v) =
      if has_wallet_account (normalized_wallet_accounts get_address v) preferred
      then (ok preferred, past)
      else permitted preferred (wallet_request_permissions ∷ past)
          (provider.answer past wallet_request_permissions)

  unfoldable pub resolve_preferred_payer_address : Text → List WalletRequest → Asked Text
  resolve_preferred_payer_address preferred past =
      preferred_listed preferred (eth_accounts ∷ past) (provider.answer past eth_accounts)

  abbrev selected_of : Option Text → Attempt Text
  selected_of none = fail (lit "MetaMask returned no selected account.")
  selected_of (some account) =
      if nonempty account then ok account else fail (lit "MetaMask returned no selected account.")

  abbrev pub selected : List WalletRequest → Attempt Value → Asked Text
  selected past (throw e) = (throw e, past)
  selected past (ok v) = (selected_of (first (normalized_wallet_accounts get_address v)), past)

  unfoldable pub resolve_selected_payer_address : List WalletRequest → Asked Text
  resolve_selected_payer_address past =
      selected (eth_request_accounts ∷ past) (provider.answer past eth_request_accounts)

  unfoldable pub resolve_payer_address : Option Text → List WalletRequest → Asked Text
  resolve_payer_address none past = resolve_selected_payer_address past
  resolve_payer_address (some preferred) past =
      if nonempty preferred
      then resolve_preferred_payer_address preferred past
      else resolve_selected_payer_address past
