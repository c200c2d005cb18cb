-- ===== src/Web/Wallet.antt =====
-- apps/web/lib/wallet.ts: the calls of an injected wallet provider. What the provider answers is a
-- parameter, by the requests it had before, the latest first.
pub mod Laws
use zamapay.Prelude.{
  ℕ, zero, suc, ◌+◌, ◌/◌, ◌%◌, Bool, true, false, not, Option, none, some, List, [], ◌∷◌, ◌++◌,
  ◌or_use◌, ltb, ◌==◌, if◌then◌else◌,
}
use zamapay.Prelude.Text.{Text, lit}
use zamapay.Js.{
  Value, Values, nil, cons, string, array, number, int, pos, negsuc, undefined, is_object,
}
use zamapay.Web.Errors.{Failure, Attempt, ok, throw, fail}

pub record NativeCurrency : Type 0 where
  pub decimals : ℕ
  pub currency_name : Text
  pub currency_symbol : Text

pub record WalletChain : Type 0 where
  pub id : ℕ
  pub name : Text
  pub native_currency : NativeCurrency
  pub rpc_urls : List Text
  pub block_explorer_urls : Option (List Text)

-- What `wallet_addEthereumChain` is given.
pub record AddedChain : Type 0 where
  pub added_id : Text
  pub added_name : Text
  pub added_currency : NativeCurrency
  pub added_rpc_urls : List Text
  pub added_explorers : List Text

pub data WalletRequest : Type 0 where
  eth_accounts : WalletRequest
  eth_request_accounts : WalletRequest
  wallet_request_permissions : WalletRequest
  wallet_revoke_permissions : WalletRequest
  wallet_switch_ethereum_chain : Text → WalletRequest
  wallet_add_ethereum_chain : AddedChain → WalletRequest

-- A provider, and the property `code` of what it throws.
pub record Provider : Type 0 where
  pub answer : List WalletRequest → WalletRequest → Attempt Value
  pub code : Failure → Value

-- What a call gives, with the requests made so far.
abbrev pub Asked {ℓ} : Type ℓ → Type ℓ
Asked A = Attempt A × List WalletRequest

unfoldable pub ensure_ethereum_provider : Option Provider → Attempt Provider
ensure_ethereum_provider none = fail (lit "No injected wallet provider found.")
ensure_ethereum_provider (some provider) = ok provider

abbrev pub strings_of : Values → List Text
strings_of nil = []
strings_of (cons (string s) vs) = s ∷ strings_of vs
strings_of (cons _ vs) = strings_of vs

unfoldable pub parse_wallet_accounts : Value → List Text
parse_wallet_accounts (array vs) = strings_of vs
parse_wallet_accounts _ = []

abbrev pub hex_digit : ℕ → ℕ
hex_digit n = if ltb n 10 then n + b'0' else n + 87

-- The digits of `n` in base 16 before `acc`; the fuel is above `n`.
unfoldable pub hex_from : ℕ → ℕ → Text → Text
hex_from zero n acc = acc
hex_from (suc f) n acc =
    let rest = hex_from f (n / 16) (hex_digit (n % 16) ∷ acc) in
    if ltb n 16 then hex_digit n ∷ acc else rest

unfoldable pub chain_id_hex : ℕ → Text
unfolding hex_from
chain_id_hex id = lit "0x" ++ hex_from (suc id) id []

abbrev pub is_code : ℕ → Value → Bool
is_code n (number (int (pos m))) = m == n
is_code n _ = false

-- `code === -32601`
abbrev pub is_method_not_found : Value → Bool
is_method_not_found (number (int (negsuc m))) = m == 32600
is_method_not_found _ = false

unfoldable pub switch_request : WalletChain → WalletRequest
unfolding chain_id_hex
switch_request chain = wallet_switch_ethereum_chain (chain_id_hex chain.id)

unfoldable pub add_request : WalletChain → WalletRequest
unfolding chain_id_hex
add_request chain = wallet_add_ethereum_chain (record {
  added_id = chain_id_hex chain.id;
  added_name = chain.name;
  added_currency = chain.native_currency;
  added_rpc_urls = chain.rpc_urls;
  added_explorers = chain.block_explorer_urls or_use [];
})

module _ (provider : Provider) where
  unfoldable pub accounts_by : WalletRequest → List WalletRequest → Asked (List Text)
  accounts_by request past = elim (provider.answer past request) [
    | throw e ↦ (throw e, request ∷ past)
    | ok v ↦ (ok (parse_wallet_accounts v), request ∷ past)
  ]

  abbrev pub get_authorized_wallet_accounts : List WalletRequest → Asked (List Text)
  get_authorized_wallet_accounts past = accounts_by eth_accounts past

  abbrev pub request_wallet_accounts : List WalletRequest → Asked (List Text)
  request_wallet_accounts past = accounts_by eth_request_accounts past

  -- A failure with the code 4001 or any but -32601 is thrown again.
  abbrev pub revoked : Attempt Value → Attempt (Unit {0})
  revoked (ok v) = ok tt
  revoked (throw e) =
      if is_code 4001 (provider.code e)
      then throw e
      else if not (is_method_not_found (provider.code e))
      then throw e
      else ok tt

  unfoldable pub disconnect_wallet_accounts : List WalletRequest → Asked (Unit {0})
  disconnect_wallet_accounts past =
      (revoked (provider.answer past wallet_revoke_permissions), wallet_revoke_permissions ∷ past)

  abbrev pub done_with : Attempt Value → Attempt (Unit {0})
  done_with (throw e) = throw e
  done_with (ok v) = ok tt

  -- The chain is added where the wallet does not know it.
  abbrev pub switched : WalletChain → List WalletRequest → Attempt Value → Asked (Unit {0})
  switched chain past (ok v) = (ok tt, past)
  switched chain past (throw e) =
      if not (is_code 4902 (provider.code e))
      then (throw e, past)
      else (done_with (provider.answer past (add_request chain)), add_request chain ∷ past)

  unfoldable pub ensure_wallet_chain : WalletChain → List WalletRequest → Asked (Unit {0})
  ensure_wallet_chain chain past =
      switched chain (switch_request chain ∷ past) (provider.answer past (switch_request chain))
