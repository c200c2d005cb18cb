-- ===== src/Web/RuntimeUrls.antt =====
-- The URL settings of apps/web/lib/runtime-profile.ts with the profiles of env/runtime-profiles.json.
-- The process's variables and the URL parser are parameters.
use zamapay.Prelude.{Option, none, some, List, [], ◌∷◌, ◌++◌, ◌or_use◌, ◌or_try◌, if◌then◌else◌}
use zamapay.Prelude.Text.{Text, lit, nonempty, trim}
use zamapay.Web.Errors.{Attempt, ok, throw, fail, ◌>>=◌}
use zamapay.Web.Transport.{without_slash}
use zamapay.Web.Environment.{
  ContractEnvironment, local_dev, sepolia, RuntimeProfileKey, local_dev_profile, sepolia_local_ui,
  sepolia_preview, ProfileVariables, normalize_runtime_profile,
}

-- `UrlEnvField` with its `UrlFallbackField`
pub data UrlField : Type 0 where
  api_base checkout_base explorer rpc web_base : UrlField

abbrev pub key_text : RuntimeProfileKey → Text
key_text local_dev_profile = lit "local-dev"
key_text sepolia_local_ui = lit "sepolia-local-ui"
key_text sepolia_preview = lit "sepolia-preview"

-- The names of the variables, which the two Sepolia profiles share.
abbrev pub names_of : RuntimeProfileKey → UrlField → List Text
names_of key api_base = lit "ZAMAPAY_API_BASE_URL" ∷ lit "NEXT_PUBLIC_API_BASE_URL" ∷ []
names_of key checkout_base = lit "ZAMAPAY_CHECKOUT_BASE_URL" ∷ lit "NEXT_PUBLIC_APP_URL" ∷ []
names_of key web_base = lit "ZAMAPAY_WEB_BASE_URL" ∷ lit "NEXT_PUBLIC_APP_URL" ∷ []
names_of local_dev_profile explorer = lit "NEXT_PUBLIC_LOCAL_EXPLORER_URL" ∷ []
names_of _ explorer = lit "NEXT_PUBLIC_SEPOLIA_EXPLORER_URL" ∷ []
names_of local_dev_profile rpc = lit "NEXT_PUBLIC_LOCAL_RPC_URL" ∷ lit "ZAMAPAY_LOCAL_RPC_URL" ∷ []
names_of _ rpc = lit "SEPOLIA_RPC_URL" ∷ lit "NEXT_PUBLIC_SEPOLIA_RPC_URL" ∷ []

abbrev pub default_of : RuntimeProfileKey → UrlField → Option Text
default_of local_dev_profile api_base = some (lit "http://127.0.0.1:18080")
default_of local_dev_profile checkout_base = some (lit "http://127.0.0.1:3001")
default_of local_dev_profile explorer = none
default_of local_dev_profile rpc = some (lit "http://127.0.0.1:8545")
default_of local_dev_profile web_base = some (lit "http://127.0.0.1:3001")
default_of sepolia_local_ui api_base = some (lit "http://127.0.0.1:18080")
default_of sepolia_local_ui checkout_base = some (lit "http://127.0.0.1:3001")
default_of sepolia_local_ui explorer = some (lit "https://sepolia.etherscan.io")
default_of sepolia_local_ui rpc = none
default_of sepolia_local_ui web_base = some (lit "http://127.0.0.1:3001")
default_of sepolia_preview explorer = some (lit "https://sepolia.etherscan.io")
default_of sepolia_preview _ = none

unfoldable pub runtime_profile_for_contract_environment : ContractEnvironment → RuntimeProfileKey
runtime_profile_for_contract_environment local_dev = local_dev_profile
runtime_profile_for_contract_environment sepolia = sepolia_local_ui

module _ (env : Text → Option Text) (parse_url : Text → Attempt Text) where
  unfoldable pub runtime_env_value : List Text → Option Text
  runtime_env_value [] = none
  runtime_env_value (name ∷ names) =
      let rest = runtime_env_value names in
      let value = trim (env name or_use []) in if nonempty value then some value else rest

  unfoldable pub runtime_value : RuntimeProfileKey → UrlField → Option Text
  runtime_value key field = runtime_env_value (names_of key field) or_try default_of key field

  unfoldable pub normalized_url : Text → Text → Attempt Text
  normalized_url value label = elim (parse_url value) [
    | ok url ↦ ok (without_slash url)
    | throw _ ↦ fail (label ++ lit " is not a valid URL: " ++ value)
  ]

  unfoldable pub runtime_url : RuntimeProfileKey → UrlField → Text → Attempt Text
  runtime_url key field label =
      let value = runtime_value key field or_use [] in
      if nonempty value
      then normalized_url value label
      else fail (label ++ lit " is not configured for " ++ key_text key ++ lit ".")

  abbrev some_url : Attempt Text → Attempt (Option Text)
  some_url (throw e) = throw e
  some_url (ok url) = ok (some url)

  unfoldable pub runtime_optional_url : RuntimeProfileKey → UrlField → Text → Attempt (Option Text)
  runtime_optional_url key field label =
      let value = runtime_value key field or_use [] in
      if nonempty value then some_url (normalized_url value label) else ok none

  unfoldable pub active_runtime_profile : ProfileVariables → Attempt RuntimeProfileKey
  active_runtime_profile vars =
      normalize_runtime_profile vars
        (vars.zamapay_runtime_profile or_try vars.next_public_runtime_profile)

  unfoldable pub runtime_api_base_url : ProfileVariables → Attempt Text
  runtime_api_base_url vars = do
    key ← active_runtime_profile vars
    runtime_url key api_base (lit "API base URL")

  unfoldable pub runtime_web_base_url : ProfileVariables → Attempt Text
  runtime_web_base_url vars = do
    key ← active_runtime_profile vars
    runtime_url key web_base (lit "web base URL")

  unfoldable pub runtime_checkout_base_url : ProfileVariables → Attempt Text
  runtime_checkout_base_url vars = do
    key ← active_runtime_profile vars
    runtime_url key checkout_base (lit "checkout base URL")
