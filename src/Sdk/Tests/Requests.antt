-- ===== src/Sdk/Tests/Requests.antt =====
-- Requests and errors at concrete inputs.
use zamapay.Prelude.{ℕ, ◌+◌, ◌≤◌, ◌≡◌, refl, ◌≢◌, Bool, true, false, none, some, [], ◌∷◌}
use zamapay.Prelude.Text.{Text, lit, str_eq, to_upper, includes}
use zamapay.Js.{object, end, int, pos}
use zamapay.Sdk.Errors.{connection_error, timeout_error, idempotency_error, ParsedError, classify}
use zamapay.Sdk.Errors.Laws.{classify-ne-connection}
use zamapay.Sdk.Result.{ok}
use zamapay.Sdk.Request.{
  Host, History, sent, HttpRequest, FetchResponse, Fetched, response, plain, one, Sender,
  RequestOptions, Response, request_can_retry, response_should_retry, normalize_retry_count,
  normalize_timeout,
}
use zamapay.Sdk.Request.ResponseHeaders.{headers_to_record, last_response_from, request_id_from}
use zamapay.Sdk.Request.Loop.{request, settle, wants_retry, retry_headers, read_response}
use zamapay.Sdk.Request.Loop.Laws.{sends, Grows}
use zamapay.Sdk.Request.Laws.{
  IsAttempt, request_sends_at_most_six, request_without_key_sends_once, request-Grows,
  request-ok_reads_last, IsReadFrom,
}

abbrev pub reply : Bool → ℕ → Text → Fetched
reply success status body = response (record {
  headers = some (plain ((lit "Retry-After", one (lit "2")) ∷ []));
  ok = success;
  status = status;
  text = ok body;
})

abbrev fetch : History → HttpRequest → Fetched
fetch [] r = reply false 503 (lit "busy")
fetch (_ ∷ _) r = reply true 200 (lit "{}")

-- An API that is busy at first, and then answers with an empty object.
abbrev pub busy_once : Host
busy_once = record {
  fetch = fetch;
  now = λ past. 1000;
  date_parse = λ s. none;
  to_number = λ s. int (pos 2);
  json_parse = λ s. some (object end);
  json_stringify = λ v. lit "{}";
  url_protocol = λ s. some (lit "https:");
  global_fetch = true;
}

abbrev pub test_sender : Sender
test_sender = record {
  api_version = lit "2026-05-14";
  base_url = lit "https://api.zamapay.org";
  max_network_retries = 1;
  secret_key = lit "sk_test";
  timeout_ms = int (pos 80000);
}

abbrev options : RequestOptions
options = record {
  body = none;
  idempotency_key = none;
  max_network_retries = none;
  timeout_ms = none;
}

abbrev path : Text
path = lit "/api/x"

abbrev answer : Response
answer = record {
  value = object end;
  last_response = some (record {
    api_version = lit "2026-05-14";
    headers = (lit "retry-after", lit "2") ∷ [];
    idempotency_key = none;
    request_id = none;
    status = 200;
  });
}

get_retries :
    ((request busy_once test_sender (lit "get") path options []).0 ≡ ok answer)
    × (sends (request busy_once test_sender (lit "get") path options []).1 ≡ 2)
unfolding request settle wants_retry retry_headers read_response normalize_retry_count
    normalize_timeout request_can_retry response_should_retry headers_to_record last_response_from
    request_id_from str_eq to_upper
get_retries = (refl, refl)

sends_at_most_six_example :
    sends (request busy_once test_sender (lit "get") path options []).1 ≤ sends [] + 6
sends_at_most_six_example =
    request_sends_at_most_six busy_once test_sender (lit "get") path options []

post_may_not_retry : request_can_retry (to_upper (lit "post")) none ≡ false
unfolding request_can_retry to_upper str_eq
post_may_not_retry = refl

sends_once_example :
    sends (request busy_once test_sender (lit "post") path options []).1 ≤ sends [] + 1
sends_once_example =
    request_without_key_sends_once busy_once test_sender (lit "post") path options []
      post_may_not_retry

request-Grows_example :
    Grows
      (IsAttempt busy_once test_sender (lit "get") path options [])
      []
      (request busy_once test_sender (lit "get") path options []).1
request-Grows_example = request-Grows busy_once test_sender (lit "get") path options []

reads_last_example :
    (last : History) × (req : HttpRequest) × (rep : FetchResponse) × ((request busy_once test_sender
        (lit "get")
        path
        options
        []).1
      ≡ sent req ∷ last)
    × (busy_once.fetch last req ≡ response rep)
    × IsReadFrom busy_once rep answer
reads_last_example =
    request-ok_reads_last busy_once test_sender (lit "get") path options [] get_retries.0

abbrev reused : ParsedError
reused = record { code = some (lit "idempotency_conflict"); message = none; type = none }

conflict_class : classify 409 reused ≡ idempotency_error
unfolding classify str_eq includes
conflict_class = refl

classify_example : (classify 503 reused ≢ connection_error) × (classify 503 reused ≢ timeout_error)
classify_example = classify-ne-connection 503 reused
