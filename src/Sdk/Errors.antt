-- ===== src/Sdk/Errors.antt =====
-- packages/zamapay-server/src/errors.ts: the classes of errors and how a failed response becomes
-- one. The texts of errors that the SDK raises itself are left out: class and code tell them apart.
pub mod Laws
use zamapay.Prelude.{
  ℕ, Bool, true, false, ◌||◌, Option, none, some, List, ◌==◌, ◌or_use◌, if◌then◌else◌, ◌++◌,
}
use zamapay.Prelude.Text.{Text, lit, str_eq, includes, nonempty, trim}
use zamapay.Prelude.Decimal.{decimal}
use zamapay.Js.{Value, undefined, truthy, is_nullish, member, as_text}

pub data ErrorClass : Type 0 where
  authentication_error api_error invalid_request_error idempotency_error : ErrorClass
  permission_error rate_limit_error connection_error timeout_error : ErrorClass
  webhook_verification_error : ErrorClass

abbrev pub Headers : Type 0
Headers = List (Text × Text)

pub record ZamaPayError : Type 0 where
  pub class : ErrorClass
  pub message : Text
  pub code : Option Text
  pub headers : Option Headers
  pub raw_body : Option Text
  pub request_id : Option Text
  pub status : Option ℕ
  pub type : Option Text

-- `new C(…, { code })`
abbrev pub coded : ErrorClass → Text → ZamaPayError
coded c k = record {
  class = c;
  message = lit "";
  code = some k;
  headers = none;
  raw_body = none;
  request_id = none;
  status = none;
  type = none;
}

pub record ApiErrorResponse : Type 0 where
  pub headers : Option Headers
  pub raw_body : Text
  pub request_id : Option Text
  pub status : ℕ

pub record ParsedError : Type 0 where
  pub code : Option Text
  pub message : Option Text
  pub type : Option Text

abbrev nothing_parsed : ParsedError
nothing_parsed = record { code = none; message = none; type = none }

-- `body.error` throws where the body is null; the `catch` then gives `{}`.
error_of : Value → ParsedError
error_of body =
    if is_nullish body
    then nothing_parsed
    else if truthy (member body (lit "error"))
    then record {
      code = as_text (member (member body (lit "error")) (lit "code"));
      message = as_text (member (member body (lit "error")) (lit "message"));
      type = as_text (member (member body (lit "error")) (lit "type"));
    }
    else nothing_parsed

-- `json_parse` is `JSON.parse`, `none` where it throws.
unfoldable pub parse_error : (Text → Option Value) → Text → ParsedError
unfolding error_of
parse_error json_parse raw_body = elim (json_parse raw_body) [
  | none ↦ nothing_parsed
  | some body ↦ error_of body
]

abbrev pub is_text : Option Text → Text → Bool
is_text none t = false
is_text (some s) t = str_eq s t

abbrev pub mentions : Option Text → Text → Bool
mentions none t = false
mentions (some s) t = includes s t

-- The chain of tests in `apiErrorFromResponse`.
unfoldable pub classify : ℕ → ParsedError → ErrorClass
classify status parsed =
    if status == 401 || is_text parsed.type (lit "authentication_error")
    then authentication_error
    else if status == 403 || is_text parsed.type (lit "permission_error")
    then permission_error
    else if status == 429 || is_text parsed.type (lit "rate_limit_error")
    then rate_limit_error
    else if is_text parsed.type (lit "idempotency_error")
        || is_text parsed.code (lit "idempotency_key_reused")
        || mentions parsed.code (lit "idempotency")
    then idempotency_error
    else if status == 400 || status == 404 || is_text parsed.type (lit "invalid_request_error")
    then invalid_request_error
    else api_error

abbrev fallback_message : ℕ → Text → Text
fallback_message status raw_body =
    if nonempty (trim raw_body)
    then trim raw_body
    else lit "ZamaPay API request failed with " ++ decimal status

unfoldable pub api_error_from_response : (Text → Option Value) → ApiErrorResponse → ZamaPayError
unfolding parse_error classify
api_error_from_response json_parse r =
    let parsed = parse_error json_parse r.raw_body in
    record {
      class = classify r.status parsed;
      message = parsed.message or_use fallback_message r.status r.raw_body;
      code = parsed.code;
      headers = r.headers;
      raw_body = some r.raw_body;
      request_id = r.request_id;
      status = some r.status;
      type = parsed.type;
    }
