-- ===== src/Web/DevSigner.antt =====
-- The routes that sign with the development key: apps/web/app/api/dev/sign-message/route.ts and
-- apps/web/app/api/dev/local-session/route.ts. The key's account, URLs and the network are parameters.
pub mod Laws
use zamapay.Prelude.{
  ℕ, Bool, true, false, not, ◌&&◌, ◌||◌, Option, none, some, List, [], ◌∷◌, ◌++◌, ◌or_use◌, ltb,
  ◌==◌, length, if◌then◌else◌,
}
use zamapay.Prelude.Text.{Text, lit, nonempty, str_eq, starts_with}
use zamapay.Js.{Value, string, object, end, property}
use zamapay.Web.Errors.{Attempt, ok, throw, fail, ◌>>=◌, ◌>>◌}
use zamapay.Web.Environment.{ProfileVariables, public_contract_environment, environment_text}
use zamapay.Web.Gates.{can_use_dev_signer}
use zamapay.Web.Receipts.{JsonReply, error_reply}
use zamapay.Web.Relay.{Viem, read_property}
use zamapay.Web.Session.{SessionCookie, SessionReply, with_error, redirect, no_session}
use zamapay.Web.Transport.{Network, post_rust_json}

pub record Challenge : Type 0 where
  pub nonce : Text
  pub message : Text

pub record LocalSession : Type 0 where
  pub authenticated : Bool
  pub session_id : Option Text

pub record Signer : Type 0 where
  pub variables : ProfileVariables
  pub enable_dev_signer : Option Text
  pub node_env : Option Text
  pub hostname : Text → Attempt Text
  pub address : Attempt Text
  pub sign_message : Text → Attempt Text
  pub network : Network
  pub parse_challenge : Text → Attempt Challenge
  pub parse_session : Text → Attempt LocalSession
  pub resolve_url : Text → Text → Attempt Text
  pub viem : Viem

pub record SignRequest : Type 0 where
  pub url : Text
  pub json : Option Value

pub record LocalSessionRequest : Type 0 where
  pub url : Text
  pub next : Option Text
  pub protocol : Text

abbrev local_only : Text → JsonReply
local_only what =
    error_reply 404 (what ++ lit " is available only for local non-production verification.")

abbrev allowed_path : Text → Bool
allowed_path path =
    starts_with path (lit "/")
    && not (starts_with path (lit "//"))
    && not (starts_with path (lit "/api"))

unfoldable pub safe_redirect_path : Option Text → Text
safe_redirect_path none = lit "/merchant"
safe_redirect_path (some path) = if allowed_path path then path else lit "/merchant"

-- The message of the body, where it is one that is signed.
abbrev pub message_to_sign : Value → Option Text
message_to_sign (string s) = if (length s == 0) || ltb 4096 (length s) then none else some s
message_to_sign _ = none

module _ (signer : Signer) where
  -- `isEnabled`, `canCreateLocalSession`
  unfoldable pub is_enabled_at : Text → Attempt Bool
  is_enabled_at url = do
    environment ← public_contract_environment signer.variables
    can_use_dev_signer signer.hostname (record {
      contract_env = some (environment_text environment);
      switch = signer.enable_dev_signer;
      node_env = signer.node_env;
      request_url = url;
    })

  -- `GET` of `sign-message`
  abbrev pub address_reply : Bool → Attempt JsonReply
  address_reply false = ok (local_only (lit "dev signing"))
  address_reply true = do
    address ← signer.address
    ok (record {
      reply_status = 200;
      json = object (property (lit "address") (string address) end);
    })

  unfoldable pub get_address_of_signer : SignRequest → Attempt JsonReply
  get_address_of_signer request = do enabled ← is_enabled_at request.url; address_reply enabled

  abbrev pub signature_reply : Text → Attempt Text → Attempt JsonReply
  signature_reply address signed = do
    signature ← signed
    ok (record {
      reply_status = 200;
      json = object (
          property (lit "address") (string address)
            (property (lit "signature") (string signature) end));
    })

  -- The signing of the message, with the messages signed.
  abbrev pub sign_for : Text → Attempt Text → Attempt JsonReply × List Text
  sign_for message (throw e) = (throw e, [])
  sign_for message (ok address) =
      (signature_reply address (signer.sign_message message), message ∷ [])

  abbrev pub sign_checked : Option Text → Attempt JsonReply × List Text
  sign_checked none =
      (ok (error_reply 400 (lit "message must be a non-empty string under 4096 characters.")), [])
  sign_checked (some message) = sign_for message signer.address

  abbrev pub sign_read : Attempt Value → Attempt JsonReply × List Text
  sign_read (throw e) = (throw e, [])
  sign_read (ok v) = sign_checked (message_to_sign v)

  abbrev pub sign_if : SignRequest → Attempt Bool → Attempt JsonReply × List Text
  sign_if request (throw e) = (throw e, [])
  sign_if request (ok false) = (ok (local_only (lit "dev signing")), [])
  sign_if request (ok true) =
      sign_read (read_property signer.viem (request.json or_use object end) (lit "message"))

  -- `POST` of `sign-message`, with the messages signed
  unfoldable pub post_sign_message : SignRequest → Attempt JsonReply × List Text
  post_sign_message request = sign_if request (is_enabled_at request.url)

  abbrev redirect_reply : LocalSessionRequest → Text → Attempt SessionReply
  redirect_reply request id = do
    location ← signer.resolve_url (safe_redirect_path request.next) request.url
    ok (
        redirect location (record {
          session = id;
          max_age = none;
          secure = str_eq request.protocol (lit "https:");
        }))

  abbrev pub local_session_reply : LocalSessionRequest → LocalSession → Attempt SessionReply
  local_session_reply request answer =
      if answer.authenticated && nonempty (answer.session_id or_use [])
      then redirect_reply request (answer.session_id or_use [])
      else ok no_session

  unfoldable pub open_local_session : LocalSessionRequest → Attempt SessionReply
  open_local_session request = do
    address ← signer.address
    challenge ←
        post_rust_json signer.network signer.parse_challenge (lit "/api/auth/nonce")
          (object (property (lit "address") (string address) end))
    signature ← signer.sign_message challenge.message
    answer ← post_rust_json signer.network signer.parse_session (lit "/api/auth/verify") (
        object (
          property (lit "address") (string address) (
            property (lit "message") (string challenge.message) (
              property (lit "nonce") (string challenge.nonce)
                (property (lit "signature") (string signature) end)))))
    local_session_reply request answer

  abbrev pub session_if : LocalSessionRequest → Bool → Attempt SessionReply
  session_if request false = ok (with_error (local_only (lit "local session")))
  session_if request true = open_local_session request

  -- `GET` of `local-session`
  unfoldable pub get_local_session : LocalSessionRequest → Attempt SessionReply
  get_local_session request = do enabled ← is_enabled_at request.url; session_if request enabled
