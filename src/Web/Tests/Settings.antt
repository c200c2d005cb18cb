-- ===== src/Web/Tests/Settings.antt =====
-- Runs of the URL settings.
use zamapay.Prelude.{◌≡◌, refl, none, some}
use zamapay.Prelude.Text.{Text, lit, str_eq, to_lower, trim, trim_start, is_space}
use zamapay.Web.Errors.{ok, fail}
use zamapay.Web.Environment.{ProfileVariables, normalize_runtime_profile, profile_of_key}
use zamapay.Web.RuntimeUrls.{
  runtime_env_value, runtime_value, normalized_url, runtime_url, active_runtime_profile,
  runtime_api_base_url,
}

abbrev variables_for : Text → ProfileVariables
variables_for key = record {
  zamapay_runtime_profile = some key;
  next_public_runtime_profile = none;
}

local_api :
    runtime_api_base_url
      (λ name. some (lit "  "))
      (λ url. ok (url))
      (variables_for (lit "Local-Dev"))
    ≡ ok (lit "http://127.0.0.1:18080")
unfolding runtime_api_base_url active_runtime_profile runtime_url runtime_value runtime_env_value
    normalized_url normalize_runtime_profile profile_of_key str_eq to_lower trim trim_start is_space
local_api = refl

preview_api :
    runtime_api_base_url (λ name. none) (λ url. ok url) (variables_for (lit "sepolia-preview"))
    ≡ fail (lit "API base URL is not configured for sepolia-preview.")
unfolding runtime_api_base_url active_runtime_profile runtime_url runtime_value runtime_env_value
    normalized_url normalize_runtime_profile profile_of_key str_eq to_lower trim trim_start is_space
preview_api = refl
