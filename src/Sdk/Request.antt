-- ===== src/Sdk/Request.antt =====
-- packages/zamapay-server/src/request.ts: the sender of HTTP requests, with its retries. The host
-- (`fetch`, the clock, `JSON`, `Number`, `Date.parse`, `URL`) is a parameter, and what the sender
-- does to it is a history of events, newest first.
pub mod ResponseHeaders
pub mod Delay
pub mod Loop
pub mod Laws
use zamapay.Prelude.{
  ℕ, Bool, false, ◌&&◌, ◌||◌, not, Option, none, some, List, [], ◌∷◌, ◌++◌, ◌==◌, leb, ◌or_use◌,
  if◌then◌else◌,
}
use zamapay.Prelude.Text.{Text, lit, str_eq, nonempty, trim, drop_trailing}
use zamapay.Js.{
  Value, Number, int, pos, is_safe_integer, is_negative, is_finite, is_at_most_zero, ℤ,
}
use zamapay.Sdk.Errors.{Headers, invalid_request_error}
use zamapay.Sdk.Result.{Thrown, Result, ok, ◌>>=◌, ◌>>◌, raise, require}

-- The three shapes of response headers: with `forEach`, with `get` alone, and a plain record.
pub data HeaderValue : Type 0 where
  absent : HeaderValue
  one : Text → HeaderValue
  many : List Text → HeaderValue

pub data FetchHeaders : Type 0 where
  for_each : List (Text × Text) → FetchHeaders
  getter : (Text → Option Text) → FetchHeaders
  plain : List (Text × HeaderValue) → FetchHeaders

-- `FetchResponse`, with what its `text()` resolves or rejects to.
pub record FetchResponse : Type 0 where
  pub headers : Option FetchHeaders
  pub ok : Bool
  pub status : ℕ
  pub text : Result Text

pub record HttpRequest : Type 0 where
  pub url : Text
  pub method : Text
  pub headers : Headers
  pub body : Option Text
  pub timeout_ms : Number

-- A call of `fetch` responds, or rejects; `aborted` says that the timer fired before.
pub data Fetched : Type 0 where
  response : FetchResponse → Fetched
  rejected : Thrown → (aborted : Bool) → Fetched

pub data Event : Type 0 where
  sent : HttpRequest → Event
  slept : Number → Event

abbrev pub History : Type 0
History = List Event

pub record Host : Type 0 where
  pub fetch : History → HttpRequest → Fetched
  -- `Date.now()`
  pub now : History → ℕ
  -- `Date.parse(s)`, `none` for NaN
  pub date_parse : Text → Option ℤ
  -- `Number(s)`
  pub to_number : Text → Number
  -- `JSON.parse(s)`, `none` where it throws
  pub json_parse : Text → Option Value
  -- `JSON.stringify(v)`
  pub json_stringify : Value → Text
  -- `new URL(s).protocol`, `none` where the constructor throws
  pub url_protocol : Text → Option Text
  -- `typeof globalThis.fetch === "function"`
  pub global_fetch : Bool

pub record LastResponse : Type 0 where
  pub api_version : Text
  pub headers : Headers
  pub idempotency_key : Option Text
  pub request_id : Option Text
  pub status : ℕ

-- A parsed body with its `lastResponse`, which only an object or an array carries.
pub record Response : Type 0 where
  pub value : Value
  pub last_response : Option LastResponse

pub record RequestOptions : Type 0 where
  pub body : Option Value
  pub idempotency_key : Option Text
  pub max_network_retries : Option Number
  pub timeout_ms : Option Number

pub record SenderOptions : Type 0 where
  pub api_version : Option Text
  pub base_url : Option Text
  -- whether `fetch` is given; the host's `fetch` then stands for it
  pub fetch : Bool
  pub max_network_retries : Option Number
  pub secret_key : Option Text
  pub timeout_ms : Option Number

pub record Sender : Type 0 where
  pub api_version : Text
  pub base_url : Text
  pub max_network_retries : ℕ
  pub secret_key : Text
  pub timeout_ms : Number

-- `Math.min(value, 5)` of a checked count; the numbers that the test lets through are `int (pos n)`.
abbrev retry_count_of : Number → ℕ
retry_count_of (int (pos n)) = if leb n 5 then n else 5
retry_count_of _ = 0

unfoldable pub normalize_retry_count : Option Number → Result ℕ
normalize_retry_count none = ok 1
normalize_retry_count (some v) =
    if not (is_safe_integer v) || is_negative v
    then raise invalid_request_error (lit "invalid_max_network_retries")
    else ok (retry_count_of v)

unfoldable pub normalize_timeout : Option Number → Result Number
normalize_timeout none = ok (int (pos 80000))
normalize_timeout (some v) =
    if not (is_finite v) || is_at_most_zero v
    then raise invalid_request_error (lit "invalid_timeout")
    else ok v

unfoldable pub normalize_base_url : Host → Text → Result Text
normalize_base_url host base_url =
    let normalized = drop_trailing b'/' (trim base_url) in
    elim (host.url_protocol normalized) [
      | none ↦ raise invalid_request_error (lit "invalid_base_url")
      | some protocol ↦
          if str_eq protocol (lit "http:") || str_eq protocol (lit "https:")
          then ok normalized
          else raise invalid_request_error (lit "invalid_base_url")
    ]

abbrev pub default_base_url : Text
default_base_url = lit "https://api.zamapay.org"

abbrev pub preview_api_version : Text
preview_api_version = lit "2026-05-14"

-- The constructor of `ZamaPayRequestSender`.
unfoldable pub new_sender : Host → SenderOptions → Result Sender
unfolding normalize_base_url normalize_retry_count normalize_timeout
new_sender host options = do
  require (nonempty (trim (options.secret_key or_use []))) invalid_request_error
      (lit "missing_secret_key")
  base_url ← normalize_base_url host (options.base_url or_use default_base_url)
  require (options.fetch || host.global_fetch) invalid_request_error (lit "missing_fetch")
  retries ← normalize_retry_count options.max_network_retries
  timeout ← normalize_timeout options.timeout_ms
  ok (record {
    api_version = options.api_version or_use preview_api_version;
    base_url = base_url;
    max_network_retries = retries;
    secret_key = options.secret_key or_use [];
    timeout_ms = timeout;
  })

-- `Boolean(idempotencyKey)`
abbrev pub has_key : Option Text → Bool
has_key none = false
has_key (some k) = nonempty k

unfoldable pub request_can_retry : Text → Option Text → Bool
request_can_retry method key =
    str_eq method (lit "GET") || str_eq method (lit "HEAD") || has_key key

unfoldable pub response_should_retry : ℕ → Bool
response_should_retry status = status == 408 || status == 409 || status == 429 || leb 500 status

unfoldable pub request_headers : Sender → Bool → Option Text → Headers
request_headers sender has_body key =
    (lit "Accept", lit "application/json")
    ∷ (lit "Authorization", lit "Bearer " ++ sender.secret_key)
    ∷ (lit "User-Agent", lit "ZamaPay/0.1.0-preview.0")
    ∷ (lit "ZamaPay-Version", sender.api_version)
    ∷ ((if has_body then (lit "content-type", lit "application/json") ∷ [] else [])
        ++ (if has_key key then (lit "idempotency-key", key or_use []) ∷ [] else []))
