-- ===== src/Web/Environment.antt =====
-- `normalizeRuntimeProfile` of apps/web/lib/runtime-profile.ts with the profiles of
-- env/runtime-profiles.json, and the contract environments of apps/web/lib/contract-environment.ts.
use zamapay.Prelude.{ℕ, Option, none, some, ◌++◌, [], ◌==◌, ◌or_use◌, ◌or_try◌, map, if◌then◌else◌}
use zamapay.Prelude.Text.{Text, lit, nonempty, str_eq, to_lower, trim}
use zamapay.Web.Errors.{Attempt, ok, fail, ◌>>=◌}

pub data ContractEnvironment : Type 0 where
  local_dev sepolia : ContractEnvironment

abbrev pub environment_text : ContractEnvironment → Text
environment_text local_dev = lit "local-dev"
environment_text sepolia = lit "sepolia"

pub data RuntimeProfileKey : Type 0 where
  local_dev_profile sepolia_local_ui sepolia_preview : RuntimeProfileKey

-- The two variables of the process that name the profile.
pub record ProfileVariables : Type 0 where
  pub zamapay_runtime_profile : Option Text
  pub next_public_runtime_profile : Option Text

abbrev pub clean_key : Option Text → Text
clean_key value = to_lower (trim (value or_use []))

abbrev pub profile_input : ProfileVariables → Option Text → Option Text
profile_input vars value =
    value or_try vars.zamapay_runtime_profile or_try vars.next_public_runtime_profile

-- The keys of the document's profiles.
unfoldable pub profile_of_key : Text → Option RuntimeProfileKey
profile_of_key key =
    if str_eq key (lit "local-dev")
    then some local_dev_profile
    else if str_eq key (lit "sepolia-local-ui")
    then some sepolia_local_ui
    else if str_eq key (lit "sepolia-preview")
    then some sepolia_preview
    else none

-- The document's `defaultProfile` is `local-dev`.
unfoldable pub normalize_runtime_profile :
    ProfileVariables → Option Text → Attempt RuntimeProfileKey
unfolding profile_of_key
normalize_runtime_profile vars value =
    let raw = clean_key (profile_input vars value) in
    elim (profile_of_key (if nonempty raw then raw else lit "local-dev")) [
      | some key ↦ ok key
      | none ↦
          fail (lit "Unsupported runtime profile \"" ++ (value or_use lit "undefined") ++ lit "\".")
    ]

-- The document's `contractEnvironment` of each profile.
abbrev pub environment_of_profile : RuntimeProfileKey → ContractEnvironment
environment_of_profile local_dev_profile = local_dev
environment_of_profile sepolia_local_ui = sepolia
environment_of_profile sepolia_preview = sepolia

unfoldable pub contract_environment_from_runtime_profile :
    ProfileVariables → Option Text → Attempt ContractEnvironment
unfolding normalize_runtime_profile
contract_environment_from_runtime_profile vars value = do
  key ← normalize_runtime_profile vars value
  ok (environment_of_profile key)

unfoldable pub public_contract_environment : ProfileVariables → Attempt ContractEnvironment
unfolding contract_environment_from_runtime_profile
public_contract_environment vars =
    contract_environment_from_runtime_profile vars vars.next_public_runtime_profile

-- `replaceAll('_', '-')`
abbrev dashed : Text → Text
dashed s = map (λ c. if c == b'_' then b'-' else c) s

abbrev pub default_contract_environment : ContractEnvironment
default_contract_environment = local_dev

-- The answer for the trimmed, lowered and dashed name of `value`.
abbrev environment_named : Text → Text → Attempt ContractEnvironment
environment_named value normalized =
    if str_eq normalized (lit "local-dev")
    then ok local_dev
    else if str_eq normalized (lit "sepolia")
    then ok sepolia
    else fail (
        lit "Unsupported contract environment \""
        ++ value
        ++ lit "\". Use \"local-dev\" or \"sepolia\".")

unfoldable pub normalize_contract_environment : Option Text → Attempt ContractEnvironment
normalize_contract_environment none = ok default_contract_environment
normalize_contract_environment (some value) =
    if nonempty (trim value)
    then environment_named value (dashed (to_lower (trim value)))
    else ok default_contract_environment

-- `contractEnvironmentConfigs[environment].chain.id`
abbrev pub chain_id : ContractEnvironment → ℕ
chain_id local_dev = 31337
chain_id sepolia = 11155111

unfoldable pub contract_environment_for_chain_id : ℕ → Option ContractEnvironment
contract_environment_for_chain_id id =
    if id == chain_id local_dev
    then some local_dev
    else if id == chain_id sepolia
    then some sepolia
    else none
