-- ===== src/Web/Api.antt =====
-- apps/web/lib/api.ts: its fetch helpers, its errors, and the session's calls. `fetch` and JSON are
-- parameters; JSON is not read here, but passed on.
pub mod Portal
use zamapay.Prelude.{
  ℕ, Bool, true, false, not, ◌&&◌, ◌||◌, Option, none, some, List, [], ◌∷◌, ◌++◌, ◌or_use◌, is_some,
  ◌==◌, if◌then◌else◌,
}
use zamapay.Prelude.Text.{Text, lit, nonempty}
use zamapay.Prelude.Decimal.{decimal}
use zamapay.Js.{Value, boolean, null, object, property, end}
use zamapay.Web.Errors.{Outcome, Failure, Attempt, ok, throw, ensure, ◌>>=◌, ◌>>◌}

-- An `ApiRequestError`, or what else was thrown.
pub data ApiFailure : Type 0 where
  api_request_error : Text → ℕ → Text → ApiFailure
  other_failure : Failure → ApiFailure

abbrev pub Api {ℓ} : Type ℓ → Type ℓ
Api A = Outcome ApiFailure A

pub record ApiFetchOptions : Type 0 where
  pub body : Option Value
  pub cookie_header : Option Text
  pub fallback : Text
  pub method : Option Text

-- What `fetch` is given; its caching and credentials are left out.
pub record FetchInit : Type 0 where
  pub sent_body : Option Text
  pub sent_type : Option Text
  pub sent_cookie : Option Text
  pub sent_method : Text

pub record ApiResponse : Type 0 where
  pub response_ok : Bool
  pub response_status : ℕ
  pub response_text : Attempt Text
  pub response_json : Attempt Value

pub record ApiHost : Type 0 where
  pub has_window : Bool
  pub api_base_url : Text
  pub json_stringify : Value → Text
  pub fetch : Text → FetchInit → Attempt ApiResponse

unfoldable pub is_unauthorized_api_error : ApiFailure → Bool
is_unauthorized_api_error (api_request_error message status body) =
    (status == 401) || (status == 403)
is_unauthorized_api_error (other_failure e) = false

-- `fallback.replace(/[.!?]$/, '')`
abbrev pub without_mark : Text → Text
without_mark [] = []
without_mark (c ∷ []) = if (c == b'.') || (c == b'!') || (c == b'?') then [] else c ∷ []
without_mark (c ∷ d ∷ s) = c ∷ without_mark (d ∷ s)

abbrev text_or_empty : Attempt Text → Text
text_or_empty (ok text) = text
text_or_empty (throw _) = []

unfoldable pub api_request_error_of : ApiResponse → Text → ApiFailure
api_request_error_of response fallback =
    let body = text_or_empty response.response_text in
    let message =
      without_mark fallback ++ lit " with " ++ decimal response.response_status ++ lit "." in
    api_request_error (if nonempty body then body else message) response.response_status body

abbrev pub other {ℓ} : {A : Type ℓ} → Attempt A → Api A
other (throw e) = throw (other_failure e)
other (ok a) = ok a

abbrev cookie_of : Option Text → Option Text
cookie_of none = none
cookie_of (some s) = if nonempty s then some s else none

module _ (host : ApiHost) where
  abbrev pub rust_api_url_at : Text → Text
  rust_api_url_at path = if host.has_window then path else host.api_base_url ++ path

  abbrev pub platform_api_url : Text → Text
  platform_api_url path = host.api_base_url ++ path

  unfoldable pub api_fetch_init : ApiFetchOptions → FetchInit
  api_fetch_init options = record {
    sent_body = elim options.body [ none ↦ none | some v ↦ some (host.json_stringify v) ];
    sent_type = elim options.body [ none ↦ none | some v ↦ some (lit "application/json") ];
    sent_cookie = cookie_of options.cookie_header;
    sent_method = options.method or_use (if is_some options.body then lit "POST" else lit "GET");
  }

  unfoldable pub fetch_api_json : Text → ApiFetchOptions → Api Value
  fetch_api_json url options = do
    response ← other (host.fetch url (api_fetch_init options))
    ensure response.response_ok (api_request_error_of response options.fallback)
    other response.response_json

  -- The answer that is not 404.
  abbrev pub optional_json : ApiFetchOptions → ApiResponse → Api (Option Value)
  optional_json options response = if response.response_status == 404 then ok none else (do
    ensure response.response_ok (api_request_error_of response options.fallback)
    v ← other response.response_json
    ok (some v))

  unfoldable pub fetch_optional_api_json : Text → ApiFetchOptions → Api (Option Value)
  fetch_optional_api_json url options = do
    response ← other (host.fetch url (api_fetch_init options))
    optional_json options response

  unfoldable pub fetch_api_ok : Text → ApiFetchOptions → Api (Unit {0})
  fetch_api_ok url options = do
    response ← other (host.fetch url (api_fetch_init options))
    ensure response.response_ok (api_request_error_of response options.fallback)

  abbrev anonymous : Value
  anonymous =
      object (property (lit "authenticated") (boolean false) (property (lit "user") null end))

  abbrev pub session_or_anonymous : Api Value → Value
  session_or_anonymous (throw _) = anonymous
  session_or_anonymous (ok v) = v

  -- `getSession`, which throws nothing
  unfoldable pub get_session : Text → Value
  get_session cookie = session_or_anonymous (
      fetch_api_json (platform_api_url (lit "/api/session")) (record {
        body = none;
        cookie_header = some cookie;
        fallback = lit "Session lookup failed.";
        method = none;
      }))

  unfoldable pub clear_browser_session_cookie : Api (Unit {0})
  clear_browser_session_cookie = fetch_api_ok (lit "/api/auth/logout") (record {
    body = none;
    cookie_header = none;
    fallback = lit "Logout failed.";
    method = some (lit "POST");
  })

  -- `logoutSession`: the cookie alone is cleared where the API does not end the session.
  abbrev pub logged_out : Attempt ApiResponse → Api (Unit {0})
  logged_out (throw _) = clear_browser_session_cookie
  logged_out (ok response) = if response.response_ok then ok tt else clear_browser_session_cookie

  unfoldable pub logout_session : Api (Unit {0})
  logout_session = logged_out (
      host.fetch (platform_api_url (lit "/api/session")) (record {
        sent_body = none;
        sent_type = none;
        sent_cookie = none;
        sent_method = lit "DELETE";
      }))

  -- A `GET` under the merchant's cookie.
  abbrev with_cookie : Text → Text → ApiFetchOptions
  with_cookie cookie fallback = record {
    body = none;
    cookie_header = some cookie;
    fallback = fallback;
    method = none;
  }

  unfoldable pub get_payment_projects : Text → Api Value
  get_payment_projects cookie =
      fetch_api_json (rust_api_url_at (lit "/api/projects"))
        (with_cookie cookie (lit "Project list failed."))

  unfoldable pub get_billing_subscription : Text → Api Value
  get_billing_subscription cookie =
      fetch_api_json (rust_api_url_at (lit "/api/billing/subscription"))
        (with_cookie cookie (lit "Billing subscription lookup failed."))

  unfoldable pub get_project_overview : Text → Text → Api Value
  get_project_overview project cookie =
      fetch_api_json (rust_api_url_at (lit "/api/projects/" ++ project))
        (with_cookie cookie (lit "Project overview failed."))

  unfoldable pub get_invoice_record : Text → Api (Option Value)
  get_invoice_record invoice =
      fetch_optional_api_json (platform_api_url (lit "/api/invoices/" ++ invoice)) (record {
        body = none;
        cookie_header = none;
        fallback = lit "Invoice lookup failed.";
        method = none;
      })
