-- ===== src/Web/Session.antt =====
-- The routes that open and close a session: apps/web/app/api/auth/verify/route.ts, logout and nonce beside
-- it, and apps/web/app/api/dev/local-session/route.ts. The account of the development key, URLs and the
-- transport's network are parameters.
pub mod Laws
use zamapay.Prelude.{
  ℕ, Bool, true, false, not, ◌&&◌, ◌||◌, Option, none, some, List, [], ◌∷◌, ◌++◌, ◌or_use◌,
  if◌then◌else◌,
}
use zamapay.Prelude.Text.{Text, lit, nonempty, str_eq, starts_with}
use zamapay.Js.{Value, string, boolean, object, end, property, member, is_nullish}
use zamapay.Web.Errors.{Attempt, ok, throw, fail, ◌>>=◌, ◌>>◌}
use zamapay.Web.Environment.{ProfileVariables, public_contract_environment, environment_text}
use zamapay.Web.Gates.{can_use_dev_signer}
use zamapay.Web.Receipts.{JsonReply, error_reply}
use zamapay.Web.Transport.{
  Network, IncomingRequest, UpstreamResponse, TextReply, ForwardOptions, fetch_rust_from_request,
  rust_text_response, proxy_rust_from_request, post_rust_json,
}

-- The cookie `zamapay_session`, for HTTP only, of the path `/` and the same site.
pub record SessionCookie : Type 0 where
  pub session : Text
  pub max_age : Option ℕ
  pub secure : Bool

pub data SessionReply : Type 0 where
  with_text : TextReply → Option SessionCookie → SessionReply
  with_error : JsonReply → SessionReply
  empty_reply : SessionCookie → SessionReply
  redirect : Text → SessionCookie → SessionReply

abbrev pub no_session : SessionReply
no_session = with_error (error_reply 502 (lit "Rust auth service did not return a session id."))

abbrev pub json_fallback : ForwardOptions
json_fallback = record {
  content_type_fallback = some (lit "application/json");
  copy_cookie = false;
  search = none;
}

-- The session id of an authenticated answer.
abbrev pub session_of : Value → Value → Option Text
session_of (boolean true) (string s) = if nonempty s then some s else none
session_of _ _ = none

-- `auth/logout`; the reply has no body and the status 204.
abbrev pub post_logout : SessionReply
post_logout = empty_reply (record { session = []; max_age = some 0; secure = false })

module _ (network : Network) (protocol : Text → Attempt Text) where
  -- `auth/nonce`
  unfoldable pub post_nonce : IncomingRequest → Attempt TextReply
  post_nonce request = proxy_rust_from_request network request (lit "/api/auth/nonce") json_fallback

  abbrev pub read_session_response : Text → Value
  read_session_response body = network.json_parse body or_use object end

  -- `session.user?.sessionId` with the check of the answer
  unfoldable pub authenticated_session : Value → Attempt (Option Text)
  authenticated_session v =
      if is_nullish v
      then fail (network.cannot_read (lit "user"))
      else ok (
          session_of (member v (lit "authenticated"))
            (member (member v (lit "user")) (lit "sessionId")))

  unfoldable pub is_secure_request : IncomingRequest → Attempt Bool
  is_secure_request request = do scheme ← protocol request.url; ok (str_eq scheme (lit "https:"))

  abbrev pub opened : IncomingRequest → UpstreamResponse → Text → Option Text → Attempt SessionReply
  opened request response text none = ok no_session
  opened request response text (some id) = do
    reply ← rust_text_response network response (some text)
    is_secure ← is_secure_request request
    ok (with_text reply (some (record { session = id; max_age = none; secure = is_secure })))

  abbrev pub answered : IncomingRequest → UpstreamResponse → Text → Attempt SessionReply
  answered request response text =
      if not response.is_ok
      then (do reply ← rust_text_response network response (some text); ok (with_text reply none))
      else (do
        id ← authenticated_session (read_session_response text)
        opened request response text id)

  -- `auth/verify`
  unfoldable pub post_verify : IncomingRequest → Attempt SessionReply
  post_verify request = do
    response ← fetch_rust_from_request network request (lit "/api/auth/verify") json_fallback
    text ← response.text
    answered request response text
