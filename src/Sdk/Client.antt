-- ===== src/Sdk/Client.antt =====
-- packages/zamapay-server/src/client.ts: the client for a merchant's server. Each method runs to
-- its end before the next one starts; a call that comes while the bootstrap is under way shares its
-- promise and so its result.
pub mod State
pub mod Body
pub mod BodyLaws
pub mod Laws
use zamapay.Prelude.{ℕ, Bool, true, false, not, Option, none, some, ◌++◌, if◌then◌else◌, []}
use zamapay.Prelude.Text.{Text, lit, nonempty, trim}
use zamapay.Js.{Value, undefined, string, truthy, is_nullish, member, Number}
use zamapay.Sdk.Errors.{invalid_request_error}
use zamapay.Sdk.Result.{Thrown, type_error, Result, ok, throw, require}
use zamapay.Sdk.Request.{Host, History, Response, RequestOptions, SenderOptions, Sender, new_sender}
use zamapay.Sdk.Request.Loop.{request}
use zamapay.Sdk.Client.State.{World, Method, ◌>>=◌, ◌>>◌, lift}
use zamapay.Sdk.Client.Body.{validate_nonempty_string, checkout_session_body}

-- What the client's URLs need beside the host of the requests.
pub record ClientHost : Type 0 where
  pub host : Host
  -- `encodeURIComponent(s)`
  pub encode_uri_component : Text → Text
  -- `String(v)`, as in a template
  pub to_string : Value → Text

pub record CallOptions : Type 0 where
  pub max_network_retries : Option Number
  pub project_id : Option Text
  pub timeout_ms : Option Number

abbrev pub as_value : Option Text → Value
as_value none = undefined
as_value (some s) = string s

-- The fields of a new client: its sender, and the state before any call.
pub record NewClient : Type 0 where
  pub sender : Sender
  pub world : World

unfoldable pub new_client : ClientHost → SenderOptions → Option Text → Result NewClient
new_client c options project_id = elim (new_sender c.host options) [
  | throw e ↦ throw e
  | ok sender ↦ ok (record {
    sender = sender;
    world = record { history = []; project_id = as_value project_id; bootstrap = none };
  })
]

abbrev pub no_options : RequestOptions
no_options = record {
  body = none;
  idempotency_key = none;
  max_network_retries = none;
  timeout_ms = none;
}

abbrev pub call_options : CallOptions → RequestOptions
call_options o = record {
  body = none;
  idempotency_key = none;
  max_network_retries = o.max_network_retries;
  timeout_ms = o.timeout_ms;
}

abbrev pub cannot_read_project_id : Thrown
cannot_read_project_id = type_error (lit "Cannot read properties (reading 'projectId')")

module _ (c : ClientHost) (sender : Sender) where
  unfoldable pub send : Text → Text → RequestOptions → Method Response
  send method path options w =
      let (r, h) = request c.host sender method path options w.history in
      (r, record w { history = h })

  -- The two callbacks of `then`: an error that the first one throws is kept in the promise.
  unfoldable pub bootstrap_settled : Result Response → Method Response
  bootstrap_settled (throw e) w = (throw e, record w { bootstrap = none })
  bootstrap_settled (ok r) w =
      if is_nullish r.value
      then (
        throw cannot_read_project_id,
        record w { bootstrap = some (throw cannot_read_project_id) },
      )
      else (
        ok r,
        record w { project_id = member r.value (lit "projectId"); bootstrap = some (ok r) },
      )

  unfoldable pub bootstrap_now : Method Response
  bootstrap_now w =
      let (r, w') = send (lit "GET") (lit "/api/project-secret/bootstrap") no_options w in
      bootstrap_settled r w'

  -- By the promise that is there already.
  unfoldable pub bootstrap_from : Option (Result Response) → Method Response
  bootstrap_from (some settled) w = (settled, w)
  bootstrap_from none w = bootstrap_now w

  unfoldable pub bootstrap_project : Method Response
  unfolding bootstrap_from
  bootstrap_project w = bootstrap_from w.bootstrap w

  -- `projectId ?? this.projectId`
  abbrev pub known_project : Option Text → World → Value
  known_project none w = w.project_id
  known_project (some s) w = string s

  -- `bootstrap.projectId`, which throws where the response is null or undefined.
  abbrev pub project_id_of : Response → Result Value
  project_id_of r =
      if is_nullish r.value
      then throw cannot_read_project_id
      else ok (member r.value (lit "projectId"))

  unfoldable pub resolve_project_id : Option Text → Method Value
  resolve_project_id project_id w =
      if truthy (known_project project_id w)
      then (ok (known_project project_id w), w)
      else (bootstrap_project >>= λ r. lift (project_id_of r)) w

  abbrev pub sessions_path : Value → Text
  sessions_path project = lit "/api/projects/" ++ (c.to_string project ++ lit "/checkout-sessions")

  unfoldable pub create_checkout_session : Value → CallOptions → Method Response
  create_checkout_session input options = do
    project ← resolve_project_id options.project_id
    key ←
        lift (validate_nonempty_string (member input (lit "idempotencyKey")) (lit "idempotencyKey"))
    body ← lift (checkout_session_body input)
    let o = call_options options
    send (lit "POST") (sessions_path project)
        (record o { body = some body; idempotency_key = some key })

  unfoldable pub retrieve_checkout_session : Text → CallOptions → Method Response
  retrieve_checkout_session id options = do
    lift (require (nonempty (trim id)) invalid_request_error (lit "missing_checkout_session_id"))
    project ← resolve_project_id options.project_id
    send (lit "GET") (sessions_path project ++ (lit "/" ++ c.encode_uri_component id))
        (call_options options)
