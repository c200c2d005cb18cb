-- ===== src/Web/Transport.antt =====
-- apps/web/lib/rust-api-transport.ts: how requests are passed on to the Rust API, and the two routes that
-- only pass them on, apps/web/app/api/billing/[...path]/route.ts and
-- apps/web/app/api/projects/[[...path]]/route.ts. URLs, fetch and JSON are parameters.
use zamapay.Prelude.{
  ℕ, Bool, true, ◌||◌, Option, none, some, List, [], ◌∷◌, ◌++◌, ◌or_use◌, ◌or_try◌, ◌==◌,
  if◌then◌else◌,
}
use zamapay.Prelude.Text.{Text, lit, nonempty, str_eq}
use zamapay.Js.{Value}
use zamapay.Web.Errors.{Attempt, ok, rust_api_error, ensure, ◌>>=◌, ◌>>◌}

pub record ForwardOptions : Type 0 where
  pub content_type_fallback : Option Text
  pub copy_cookie : Bool
  pub search : Option Text

-- What the routes read of a request.
pub record IncomingRequest : Type 0 where
  pub method : Text
  pub url : Text
  pub content_type : Option Text
  pub cookie : Option Text
  pub body_text : Attempt Text

-- What is fetched from the Rust API.
pub record Upstream : Type 0 where
  pub target : Text
  pub upstream_method : Text
  pub sent_content_type : Option Text
  pub sent_cookie : Option Text
  pub sent : Option Text

pub record UpstreamResponse : Type 0 where
  pub is_ok : Bool
  pub status : ℕ
  pub received_content_type : Option Text
  pub text : Attempt Text

-- `new URL(pathname, rustApiBaseUrl)` with its search, the search of a URL, `fetch`, JSON and
-- `encodeURIComponent`; `cannot_read` is the message for a property of what is null or undefined.
pub record Network : Type 0 where
  pub rust_api_url : Text → Text → Attempt Text
  pub search_of : Text → Attempt Text
  pub fetch : Upstream → Attempt UpstreamResponse
  pub json_parse : Text → Option Value
  pub json_stringify : Value → Text
  pub encode_uri_component : Text → Attempt Text
  pub cannot_read : Text → Text

-- A reply with a text; its `cache-control` is `no-store`.
pub record TextReply : Type 0 where
  pub reply_text : Text
  pub text_status : ℕ
  pub text_content_type : Text

unfoldable pub bodyless_method : Text → Bool
bodyless_method method = str_eq method (lit "GET") || str_eq method (lit "HEAD")

-- `if (text)` on a text that may be missing
abbrev pub when_nonempty : Option Text → Option Text
when_nonempty none = none
when_nonempty (some s) = if nonempty s then some s else none

abbrev pub forwarded_content_type : IncomingRequest → ForwardOptions → Option Text
forwarded_content_type request options =
    when_nonempty (request.content_type or_try options.content_type_fallback)

abbrev pub forwarded_cookie : IncomingRequest → ForwardOptions → Option Text
forwarded_cookie request options =
    if options.copy_cookie then when_nonempty request.cookie else none

-- `prefix.replace(/\/$/u, '')`
abbrev pub without_slash : Text → Text
without_slash [] = []
without_slash (c ∷ []) = if c == b'/' then [] else c ∷ []
without_slash (c ∷ d ∷ s) = c ∷ without_slash (d ∷ s)

abbrev pub joined : List Text → Text
joined [] = []
joined (s ∷ []) = s
joined (s ∷ t ∷ ts) = s ++ lit "/" ++ joined (t ∷ ts)

abbrev rust_text_reply : UpstreamResponse → Text → TextReply
rust_text_reply response text = record {
  reply_text = text;
  text_status = response.status;
  text_content_type = response.received_content_type or_use lit "application/json";
}

module _ (network : Network) where
  abbrev pub encoded_segments : List Text → Attempt (List Text)
  encoded_segments [] = ok []
  encoded_segments (s ∷ segments) = do
    encoded ← network.encode_uri_component s
    rest ← encoded_segments segments
    ok (encoded ∷ rest)

  unfoldable pub encoded_rust_path : Text → List Text → Attempt Text
  encoded_rust_path prefix segments = do
    encoded ← encoded_segments segments
    let suffix = joined encoded
    let path = without_slash prefix ++ lit "/" ++ suffix
    ok (if nonempty suffix then path else without_slash prefix)

  abbrev search_for : IncomingRequest → ForwardOptions → Attempt Text
  search_for request options = elim options.search [
    | some search ↦ ok search
    | none ↦ network.search_of request.url
  ]

  abbrev body_for : IncomingRequest → Attempt (Option Text)
  body_for request =
      if bodyless_method request.method
      then ok none
      else (do text ← request.body_text; ok (some text))

  unfoldable pub fetch_rust_from_request :
      IncomingRequest → Text → ForwardOptions → Attempt UpstreamResponse
  fetch_rust_from_request request pathname options = do
    search ← search_for request options
    target ← network.rust_api_url pathname search
    body ← body_for request
    network.fetch (record {
      target = target;
      upstream_method = request.method;
      sent_content_type = forwarded_content_type request options;
      sent_cookie = forwarded_cookie request options;
      sent = body;
    })

  unfoldable pub rust_text_response : UpstreamResponse → Option Text → Attempt TextReply
  rust_text_response response (some text) = ok (rust_text_reply response text)
  rust_text_response response none = do text ← response.text; ok (rust_text_reply response text)

  unfoldable pub proxy_rust_from_request :
      IncomingRequest → Text → ForwardOptions → Attempt TextReply
  proxy_rust_from_request request pathname options = do
    response ← fetch_rust_from_request request pathname options
    rust_text_response response none

  -- `postRustJson`, whose answer `parse` reads as its declared type
  unfoldable pub post_rust_json {ℓ} : {A : Type ℓ} → (Text → Attempt A) → Text → Value → Attempt A
  post_rust_json parse pathname body = do
    target ← network.rust_api_url pathname []
    response ← network.fetch (record {
      target = target;
      upstream_method = lit "POST";
      sent_content_type = some (lit "application/json");
      sent_cookie = none;
      sent = some (network.json_stringify body);
    })
    text ← response.text
    ensure response.is_ok (rust_api_error pathname response.status text)
    parse text

  -- The routes of the billing API and of the projects.
  unfoldable pub proxy_billing : IncomingRequest → List Text → Attempt TextReply
  proxy_billing request path = do
    pathname ← encoded_rust_path (lit "/api/billing") path
    proxy_rust_from_request request pathname
        (record { content_type_fallback = none; copy_cookie = true; search = none })

  unfoldable pub proxy_projects : IncomingRequest → Option (List Text) → Attempt TextReply
  proxy_projects request path = do
    pathname ← encoded_rust_path (lit "/api/projects") (path or_use [])
    proxy_rust_from_request request pathname
        (record { content_type_fallback = none; copy_cookie = true; search = none })
