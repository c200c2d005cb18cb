-- ===== src/Sdk/Request/Loop.antt =====
-- `ZamaPayRequestSender.request`: one call of the API, with its attempts.
pub mod Laws
use zamapay.Prelude.{
  ℕ, zero, suc, ◌+◌, Bool, true, false, ◌&&◌, ◌||◌, not, Option, none, some, List, [], ◌∷◌, ◌++◌,
  ◌or_use◌, ◌or_try◌, is_some, if◌then◌else◌,
}
use zamapay.Prelude.Text.{Text, lit, nonempty, to_upper}
use zamapay.Js.{Value, undefined, is_object, Number, int, pos}
use zamapay.Sdk.Errors.{
  Headers, ZamaPayError, api_error, connection_error, timeout_error, coded, api_error_from_response,
}
use zamapay.Sdk.Result.{
  Thrown, zamapay_error, type_error, abort_error, other_error, Result, ok, throw, ◌>>=◌,
  is_connection_class,
}
use zamapay.Sdk.Request.{
  FetchResponse, Fetched, response, rejected, HttpRequest, Host, Event, sent, slept, History,
  LastResponse, Response, RequestOptions, Sender, normalize_retry_count, normalize_timeout,
  request_can_retry, response_should_retry, request_headers,
}
use zamapay.Sdk.Request.ResponseHeaders.{headers_to_record, request_id_from, last_response_from}
use zamapay.Sdk.Request.Delay.{retry_delay_millis}

-- What one call of `request` fixes before its first attempt.
pub record Call : Type 0 where
  pub api_version : Text
  pub idempotency_key : Option Text
  pub retryable : Bool
  pub retries : ℕ
  pub request : HttpRequest

abbrev pub is_network_error : Thrown → Bool
is_network_error (zamapay_error e) = is_connection_class e.class
is_network_error (type_error _) = true
is_network_error (abort_error _) = true
is_network_error (other_error _) = false

abbrev connection_failed : Text → Thrown
connection_failed message =
    let e = coded connection_error (lit "connection_error") in
    zamapay_error (record e { message = lit "ZamaPay API connection failed: " ++ message })

abbrev pub normalize_network_error : Thrown → Thrown
normalize_network_error (zamapay_error e) =
    if is_connection_class e.class then zamapay_error e else connection_failed e.message
normalize_network_error (type_error message) = connection_failed message
normalize_network_error (abort_error message) = connection_failed message
normalize_network_error (other_error message) = connection_failed message

-- `fetchWithTimeout`: the rejection after the timer has fired is a timeout.
abbrev pub fetch_with_timeout : Fetched → Result FetchResponse
fetch_with_timeout (response r) = ok r
fetch_with_timeout (rejected e true) =
    throw (zamapay_error (coded timeout_error (lit "request_timeout")))
fetch_with_timeout (rejected e false) = throw e

unfoldable pub parse_json_response : Host → Text → ℕ → Headers → Result Value
parse_json_response host raw_body status h =
    if nonempty raw_body
    then elim (host.json_parse raw_body) [
      | some v ↦ ok v
      | none ↦ throw (
          zamapay_error (record {
            class = api_error;
            message = lit "ZamaPay API returned invalid JSON";
            code = none;
            headers = some h;
            raw_body = some raw_body;
            request_id = request_id_from h;
            status = some status;
            type = some (lit "api_error");
          }))
    ]
    else ok undefined

unfoldable pub attach_last_response : Value → LastResponse → Response
attach_last_response v last = record {
  value = v;
  last_response = if is_object v then some last else none;
}

-- The end of the `try` block, for a response that is not retried.
unfoldable pub read_response : Host → Call → FetchResponse → Text → Result Response
unfolding parse_json_response attach_last_response
read_response host call r raw_body =
    let h = headers_to_record r.headers in
    let last = last_response_from call.api_version h call.idempotency_key r.status in
    if not r.ok
    then throw (
        zamapay_error (
          api_error_from_response host.json_parse (record {
            headers = some h;
            raw_body = raw_body;
            request_id = request_id_from h;
            status = r.status;
          })))
    else do v ← parse_json_response host raw_body r.status h; ok (attach_last_response v last)

-- The `try` block without its retry.
abbrev pub attempt_result : Host → Call → Fetched → Result Response
attempt_result host call f = do
  r ← fetch_with_timeout f
  raw_body ← r.text
  read_response host call r raw_body

-- The `catch` block without its retry.
abbrev pub caught : Result Response → Result Response
caught (ok r) = ok r
caught (throw e) = if is_network_error e then throw (normalize_network_error e) else throw e

-- What an attempt ends with when it is the last.
unfoldable pub settle : Host → Call → Fetched → Result Response
settle host call f = caught (attempt_result host call f)

-- Whether an attempt asks for another one, with the headers that set the delay: a response with a
-- status to retry, or a network error while fetching or reading.
abbrev pub error_retry : Thrown → Option Headers
error_retry e = if is_network_error e then some [] else none

unfoldable pub wants_retry : Host → Call → Fetched → Option Headers
wants_retry host call f = elim (fetch_with_timeout f) [
  | throw e ↦ error_retry e
  | ok r ↦ elim r.text [
    | throw e ↦ error_retry e
    | ok raw_body ↦
        if response_should_retry r.status
        then some (headers_to_record r.headers)
        else elim (read_response host call r raw_body) [ ok _ ↦ none | throw e ↦ error_retry e ]
  ]
]

-- `none` where the call may not be retried.
unfoldable pub retry_headers : Host → Call → Fetched → Option Headers
retry_headers host call f = if call.retryable then wants_retry host call f else none

-- The `while (true)` loop, by the retries left: `maxNetworkRetries - attempt`.
unfoldable pub attempts : Host → Call → ℕ → ℕ → History → Result Response × History
attempts host call zero attempt past =
    (settle host call (host.fetch past call.request), sent call.request ∷ past)
attempts host call (suc left) attempt past =
    let f = host.fetch past call.request in
    let after = sent call.request ∷ past in
    elim (retry_headers host call f) [
      | none ↦ (settle host call f, after)
      | some h ↦
          attempts host call left (attempt + 1)
            (slept (retry_delay_millis host after attempt h) ∷ after)
    ]

unfoldable pub prepare : Host → Sender → Text → Text → RequestOptions → Result Call
prepare host sender method path options = do
  retries ←
      normalize_retry_count
        (options.max_network_retries or_try some (int (pos sender.max_network_retries)))
  timeout ← normalize_timeout (options.timeout_ms or_try some sender.timeout_ms)
  ok (record {
    api_version = sender.api_version;
    idempotency_key = options.idempotency_key;
    retryable = request_can_retry (to_upper method) options.idempotency_key;
    retries = retries;
    request = record {
      url = sender.base_url ++ path;
      method = to_upper method;
      headers = request_headers sender (is_some options.body) options.idempotency_key;
      body = elim options.body [ none ↦ none | some v ↦ some (host.json_stringify v) ];
      timeout_ms = timeout;
    };
  })

unfoldable pub request :
    Host → Sender → Text → Text → RequestOptions → History → Result Response × History
unfolding prepare attempts
request host sender method path options past = elim (prepare host sender method path options) [
  | throw e ↦ (throw e, past)
  | ok call ↦ attempts host call call.retries 0 past
]
