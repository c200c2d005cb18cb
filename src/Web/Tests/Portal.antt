-- ===== src/Web/Tests/Portal.antt =====
-- Runs of the API's calls and of the merchant's portal.
use zamapay.Prelude.{[], ℕ, ◌≡◌, refl, false, ◌==◌}
use zamapay.Prelude.Text.{lit}
use zamapay.Prelude.Decimal.{decimal, digits_from}
use zamapay.Js.{null, boolean, object, property, end}
use zamapay.Web.Errors.{ok}
use zamapay.Web.Api.{
  ApiResponse, ApiHost, fetch_api_json, api_request_error_of, is_unauthorized_api_error,
  get_payment_projects, get_project_overview, get_session, logout_session,
}
use zamapay.Web.Api.Portal.{
  ready, unauthorized, portal_failure, load_merchant_projects, load_merchant_project_overview,
}

abbrev response_of : ℕ → ApiResponse
response_of status = record {
  response_ok = status == 200;
  response_status = status;
  response_text = ok [];
  response_json = ok null;
}

abbrev host_answering : ℕ → ApiHost
host_answering status = record {
  has_window = false;
  api_base_url = lit "http://127.0.0.1:18080";
  json_stringify = λ v. [];
  fetch = λ url init. ok (response_of status);
}

expired_session :
    load_merchant_projects (host_answering 401) (lit "zamapay_session=s1")
    ≡ unauthorized (lit "Project list failed with 401.")
unfolding load_merchant_projects get_payment_projects fetch_api_json api_request_error_of
    portal_failure is_unauthorized_api_error decimal digits_from
expired_session = refl

missing_project :
    load_merchant_project_overview (host_answering 404) (lit "p1") (lit "zamapay_session=s1")
    ≡ ready null
unfolding load_merchant_project_overview get_project_overview fetch_api_json api_request_error_of
missing_project = refl

session_without_api :
    get_session (host_answering 500) []
    ≡ object (property (lit "authenticated") (boolean false) (property (lit "user") null end))
unfolding get_session fetch_api_json api_request_error_of
session_without_api = refl

ends_session : logout_session (host_answering 200) ≡ ok tt
unfolding logout_session
ends_session = refl
