-- ===== src/Sdk/Tests/Checkouts.antt =====
-- The client at concrete inputs.
use zamapay.Prelude.{◌≡◌, refl, inr, true, none, some, [], ◌∷◌}
use zamapay.Prelude.Text.{lit, str_eq, trim, to_upper}
use zamapay.Js.{Value, object, end, property, string, number, undefined, int, pos, member}
use zamapay.Sdk.Result.{ok, throw, raise}
use zamapay.Sdk.Errors.{invalid_request_error}
use zamapay.Sdk.Rails.{PaymentRail, require_payment_rail}
use zamapay.Sdk.Request.{
  Response, request_can_retry, response_should_retry, normalize_retry_count, normalize_timeout,
}
use zamapay.Sdk.Request.ResponseHeaders.{headers_to_record, last_response_from, request_id_from}
use zamapay.Sdk.Request.Loop.{request, settle, wants_retry, retry_headers, read_response}
use zamapay.Sdk.Request.Loop.Laws.{Grows}
use zamapay.Sdk.Client.{
  ClientHost, CallOptions, bootstrap_project, bootstrap_now, bootstrap_settled,
  create_checkout_session, resolve_project_id, send, no_options, cannot_read_project_id,
}
use zamapay.Sdk.Client.State.{World}
use zamapay.Sdk.Client.Body.{
  checkout_session_body, checkout_session_base_body, validate_nonempty_string,
  validate_safe_integer, rail_body, reject_extraneous_fields,
}
use zamapay.Sdk.Client.BodyLaws.{IsBody, checkout_session_body-IsBody}
use zamapay.Sdk.Client.Laws.{
  bootstrap_once, bootstrap_stuck, create-invalid_sends_nothing, IsCreate,
  create_checkout_session-Grows,
}
use zamapay.Sdk.Tests.Requests.{busy_once, test_sender, reply}

abbrev host : ClientHost
host = record { host = busy_once; encode_uri_component = λ s. s; to_string = λ v. lit "p_1" }

abbrev start : World
start = record { history = []; project_id = string (lit "p_1"); bootstrap = none }

abbrev options : CallOptions
options = record { max_network_retries = none; project_id = none; timeout_ms = none }

abbrev erc20_input : Value
erc20_input = object (
    property (lit "amountMinorUnits") (number (int (pos 10))) (
      property (lit "merchantOrderId") (string (lit "o1")) (
        property (lit "title") (string (lit "T")) (
          property (lit "idempotencyKey") (string (lit "k1")) (
            property (lit "paymentRail") (string (lit "evm_erc20")) (
              property (lit "evmChainId") (number (int (pos 31337)))
                (property (lit "evmTokenSymbol") (string (lit "USDT")) end)))))))

-- The body of that input, with its members in the order of the source.
abbrev erc20_body : Value
erc20_body = object (
    property (lit "amountLabel") undefined (
      property (lit "amountMinorUnits") (number (int (pos 10))) (
        property (lit "cancelUrl") undefined (
          property (lit "merchantOrderId") (string (lit "o1")) (
            property (lit "metadata") undefined (
              property (lit "note") undefined (
                property (lit "successUrl") undefined (
                  property (lit "title") (string (lit "T")) (
                    property (lit "evmChainId") (number (int (pos 31337))) (
                      property (lit "evmTokenSymbol") (string (lit "USDT"))
                        (property (lit "paymentRail") (string (lit "evm_erc20")) end)))))))))))

erc20_body_built : checkout_session_body erc20_input ≡ ok erc20_body
unfolding checkout_session_body require_payment_rail member str_eq checkout_session_base_body
    validate_safe_integer validate_nonempty_string trim rail_body reject_extraneous_fields
erc20_body_built = refl

body_example :
    (rail : PaymentRail) × (require_payment_rail (member erc20_input (lit "paymentRail")) ≡ ok rail)
    × IsBody rail erc20_input erc20_body
body_example = checkout_session_body-IsBody erc20_input erc20_body_built

known : (resolve_project_id host test_sender options.project_id start).0 ≡ ok (string (lit "p_1"))
unfolding resolve_project_id
known = refl

checkout_example :
    Grows
      (IsCreate host test_sender erc20_input (string (lit "p_1")))
      (resolve_project_id host test_sender options.project_id start).1.history
      (create_checkout_session host test_sender erc20_input options start).1.history
checkout_example = create_checkout_session-Grows host test_sender erc20_input options start known

-- An input without a rail.
abbrev no_rail : Value
no_rail = object (property (lit "idempotencyKey") (string (lit "k1")) end)

no_rail_refused :
    checkout_session_body no_rail ≡ raise invalid_request_error (lit "invalid_payment_rail")
unfolding checkout_session_body require_payment_rail member str_eq
no_rail_refused = refl

create-invalid_example :
    (create_checkout_session host test_sender no_rail options start).1
    ≡ (resolve_project_id host test_sender options.project_id start).1
create-invalid_example =
    create-invalid_sends_nothing host test_sender no_rail options start (inr no_rail_refused)

-- A client that does not know its project.
abbrev unknown : World
unknown = record { history = []; project_id = undefined; bootstrap = none }

abbrev bootstrap_answer : Response
bootstrap_answer = record {
  value = object end;
  last_response = some (record {
    api_version = lit "2026-05-14";
    headers = (lit "retry-after", lit "2") ∷ [];
    idempotency_key = none;
    request_id = none;
    status = 200;
  });
}

bootstrapped : (bootstrap_project host test_sender unknown).0 ≡ ok bootstrap_answer
unfolding bootstrap_project bootstrap_now send bootstrap_settled request settle wants_retry
    retry_headers read_response normalize_retry_count normalize_timeout request_can_retry
    response_should_retry headers_to_record last_response_from request_id_from str_eq to_upper
bootstrapped = refl

bootstrap_once_example :
    bootstrap_project host test_sender (bootstrap_project host test_sender unknown).1
    ≡ (ok bootstrap_answer, (bootstrap_project host test_sender unknown).1)
bootstrap_once_example = bootstrap_once host test_sender unknown bootstrapped

-- An API that answers the bootstrap with an empty body.
abbrev empty_answers : ClientHost
empty_answers = record {
  host = record busy_once { fetch = λ past r. reply true 200 [] };
  encode_uri_component = λ s. s;
  to_string = λ v. lit "undefined";
}

abbrev empty_response : Response
empty_response = record { value = undefined; last_response = none }

answered_empty :
    (send empty_answers test_sender
      (lit "GET")
      (lit "/api/project-secret/bootstrap")
      no_options
      unknown).0
    ≡ ok empty_response
unfolding send request settle wants_retry retry_headers read_response normalize_retry_count
    normalize_timeout request_can_retry response_should_retry headers_to_record last_response_from
    request_id_from str_eq to_upper
answered_empty = refl

bootstrap_stuck_example :
    ((bootstrap_project empty_answers test_sender unknown).0 ≡ throw cannot_read_project_id)
    × (bootstrap_project empty_answers test_sender
          (bootstrap_project empty_answers test_sender unknown).1
        ≡ (throw cannot_read_project_id, (bootstrap_project empty_answers test_sender unknown).1))
bootstrap_stuck_example = bootstrap_stuck empty_answers test_sender unknown refl answered_empty refl
