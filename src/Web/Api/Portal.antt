-- ===== src/Web/Api/Portal.antt =====
-- apps/web/lib/merchant-portal.ts: what the merchant's pages load, or why not.
use zamapay.Prelude.{Option, some, ◌++◌, ◌or_use◌, ◌==◌, if◌then◌else◌}
use zamapay.Prelude.Text.{Text, lit}
use zamapay.Prelude.Decimal.{decimal}
use zamapay.Js.{Value, null}
use zamapay.Web.Errors.{ok, throw, error_message}
use zamapay.Web.Api.{
  ApiFailure, api_request_error, other_failure, Api, ApiHost, is_unauthorized_api_error,
  get_payment_projects, get_billing_subscription, get_project_overview,
}

-- `MerchantPortalResult`
pub data PortalResult : Type 0 where
  ready : Value → PortalResult
  unauthorized : Text → PortalResult
  unavailable : Text → PortalResult

abbrev failure_message : ApiFailure → Option Text
failure_message (api_request_error message status body) = some message
failure_message (other_failure e) = error_message e

abbrev portal_failure_reason : ApiFailure → Text → Text
portal_failure_reason (api_request_error message status body) label =
    label ++ lit " failed with " ++ decimal status ++ lit ": " ++ message
portal_failure_reason (other_failure e) label =
    error_message e or_use (label ++ lit " is unavailable.")

unfoldable pub portal_failure : ApiFailure → Text → PortalResult
portal_failure e label =
    if is_unauthorized_api_error e
    then unauthorized (failure_message e or_use lit "Merchant session is missing.")
    else unavailable (portal_failure_reason e label)

abbrev pub loaded : Text → Api Value → PortalResult
loaded label (ok v) = ready v
loaded label (throw e) = portal_failure e label

-- A project that is not found is ready, with null.
abbrev pub loaded_or_null : Text → Api Value → PortalResult
loaded_or_null label (ok v) = ready v
loaded_or_null label (throw (api_request_error message status body)) =
    if status == 404
    then ready null
    else portal_failure (api_request_error message status body) label
loaded_or_null label (throw (other_failure e)) = portal_failure (other_failure e) label

module _ (host : ApiHost) where
  unfoldable pub load_merchant_projects : Text → PortalResult
  load_merchant_projects cookie =
      loaded (lit "Payment project list") (get_payment_projects host cookie)

  unfoldable pub load_merchant_billing : Text → PortalResult
  load_merchant_billing cookie =
      loaded (lit "Billing subscription") (get_billing_subscription host cookie)

  unfoldable pub load_merchant_project_overview : Text → Text → PortalResult
  load_merchant_project_overview project cookie =
      loaded_or_null (lit "Payment project overview") (get_project_overview host project cookie)
