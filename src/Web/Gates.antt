-- ===== src/Web/Gates.antt =====
-- apps/web/lib/dev-signer-gate.ts: who may use the development signer, the server bridges and the
-- relayer. The URL parser is a parameter: `hostname url` is `new URL(url).hostname`, or what it throws.
pub mod Laws
use zamapay.Prelude.{
  Bool, true, false, ◌&&◌, ◌||◌, not, Option, none, some, List, [], ◌∷◌, if◌then◌else◌, drop, any,
  ℕ, ◌==◌, is_some,
}
use zamapay.Prelude.Text.{
  Text, lit, nonempty, str_eq, is_space, to_lower, trim, trim_start, starts_with,
}
use zamapay.Web.Errors.{Attempt, ok, throw, ◌>>=◌}
use zamapay.Web.Environment.{
  ContractEnvironment, local_dev, sepolia, normalize_contract_environment,
}

-- What the three gates read; `switch` is `enableDevSigner` or `enableRelayer`.
pub record GateInput : Type 0 where
  pub contract_env : Option Text
  pub switch : Option Text
  pub node_env : Option Text
  pub request_url : Text

-- `value === s` for a value that may be undefined
abbrev pub is_text : Option Text → Text → Bool
is_text none s = false
is_text (some value) s = str_eq value s

abbrev pub in_production : Option Text → Bool
in_production node_env = is_text node_env (lit "production")

-- `safeContractEnvironment`: `none` is the answer `invalid`.
unfoldable pub safe_contract_environment : Option Text → Option ContractEnvironment
unfolding normalize_contract_environment
safe_contract_environment value = elim (normalize_contract_environment value) [
  | throw _ ↦ none
  | ok environment ↦ some environment
]

abbrev pub is_local_dev : Option ContractEnvironment → Bool
is_local_dev (some local_dev) = true
is_local_dev _ = false

-- `a && b` where `b` may throw
abbrev and_then : Bool → Attempt Bool → Attempt Bool
and_then false b = ok false
and_then true b = b

-- The characters that `.` does not match.
abbrev ends_line : ℕ → Bool
ends_line c = c == 10 || c == 13 || c == 8232 || c == 8233

-- `/^Bearer\s+(.+)$/i` and the trimmed group
unfoldable pub bearer_token : Option Text → Option Text
bearer_token none = none
bearer_token (some header) =
    let after = drop 6 header in
    let rest = trim_start after in
    let token = trim rest in
    if starts_with (to_lower header) (lit "bearer")
      && not (str_eq rest after)
      && not (any ends_line rest)
      && nonempty token
    then some token
    else none

module _ (hostname : Text → Attempt Text) where
  unfoldable pub is_local_request_url : Text → Attempt Bool
  is_local_request_url request_url = do
    host ← hostname request_url
    ok (str_eq host (lit "127.0.0.1") || str_eq host (lit "localhost"))

  unfoldable pub can_use_dev_signer : GateInput → Attempt Bool
  unfolding safe_contract_environment is_local_request_url
  can_use_dev_signer input =
      and_then
        (is_text input.switch (lit "1")
          && not (in_production input.node_env)
          && is_local_dev (safe_contract_environment input.contract_env))
        (is_local_request_url input.request_url)

  unfoldable pub can_use_local_dev_server_bridge : GateInput → Attempt Bool
  unfolding safe_contract_environment is_local_request_url
  can_use_local_dev_server_bridge input =
      and_then
        (not (in_production input.node_env)
          && is_local_dev (safe_contract_environment input.contract_env))
        (is_local_request_url input.request_url)

  unfoldable pub can_use_evm_relayer : GateInput → Attempt Bool
  unfolding can_use_local_dev_server_bridge
  can_use_evm_relayer input =
      if is_text input.switch (lit "1")
      then ok (elim (safe_contract_environment input.contract_env) [ none ↦ false | some _ ↦ true ])
      else can_use_local_dev_server_bridge input

  unfoldable pub can_use_sepolia_server_bridge : Option Text → Option Text → Text → Attempt Bool
  unfolding is_local_request_url bearer_token
  can_use_sepolia_server_bridge authorization_header node_env request_url = do
    near ← and_then (not (in_production node_env)) (is_local_request_url request_url)
    ok (near || is_some (bearer_token authorization_header))
