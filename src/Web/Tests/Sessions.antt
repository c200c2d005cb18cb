-- ===== src/Web/Tests/Sessions.antt =====
-- Runs of the routes that open sessions and sign.
use zamapay.Prelude.{◌≡◌, refl, true, none, some, [], ◌∷◌}
use zamapay.Prelude.Text.{Text, lit, str_eq, to_lower, trim, trim_start, is_space, starts_with}
use zamapay.Js.{Value, string, boolean, object, end, property, member, find_member}
use zamapay.Web.Errors.{Attempt, ok, fail, Passes}
use zamapay.Web.Environment.{
  public_contract_environment, contract_environment_from_runtime_profile, normalize_runtime_profile,
  profile_of_key, normalize_contract_environment,
}
use zamapay.Web.Gates.{can_use_dev_signer, safe_contract_environment, is_local_request_url}
use zamapay.Web.Relay.{read_property}
use zamapay.Web.Transport.{
  Network, IncomingRequest, fetch_rust_from_request, rust_text_response, bodyless_method,
  encoded_rust_path,
}
use zamapay.Web.Session.{with_text, post_verify, authenticated_session, is_secure_request}
use zamapay.Web.Session.Laws.{SetsSession, post_verify-SetsSession}
use zamapay.Web.DevSigner.{
  Signer, SignRequest, is_enabled_at, post_sign_message, safe_redirect_path,
}
use zamapay.Web.DevSigner.Laws.{SignsSafely, post_sign-SignsSafely}

abbrev session_answer : Value
session_answer = object (
    property (lit "authenticated") (boolean true)
      (property (lit "user") (object (property (lit "sessionId") (string (lit "s1")) end)) end))

abbrev sample_network : Network
sample_network = record {
  rust_api_url = λ pathname search. ok pathname;
  search_of = λ url. ok [];
  fetch = λ upstream.
      ok (record {
        is_ok = true;
        status = 200;
        received_content_type = none;
        text = ok (lit "{…}");
      });
  json_parse = λ s. some session_answer;
  json_stringify = λ v. [];
  encode_uri_component = λ s. ok s;
  cannot_read = λ k. k;
}

abbrev https : Text → Attempt Text
https url = ok (lit "https:")

abbrev verify_request : IncomingRequest
verify_request = record {
  method = lit "POST";
  url = lit "https://pay.example/api/auth/verify";
  content_type = none;
  cookie = none;
  body_text = ok (lit "{}");
}

login_example :
    Passes
      (SetsSession sample_network https verify_request)
      (post_verify sample_network https verify_request)
login_example = post_verify-SetsSession sample_network https verify_request

opens_s1 :
    post_verify sample_network https verify_request
    ≡ ok (
        with_text
          (record {
            reply_text = lit "{…}";
            text_status = 200;
            text_content_type = lit "application/json";
          })
          (some (record { session = lit "s1"; max_age = none; secure = true })))
unfolding post_verify fetch_rust_from_request rust_text_response bodyless_method
    authenticated_session is_secure_request member find_member str_eq
opens_s1 = refl

joins_path :
    encoded_rust_path sample_network (lit "/api/projects/") (lit "p1" ∷ lit "keys" ∷ [])
    ≡ ok (lit "/api/projects/p1/keys")
unfolding encoded_rust_path
joins_path = refl

abbrev sample_signer : Signer
sample_signer = record {
  variables = record { zamapay_runtime_profile = none; next_public_runtime_profile = none };
  enable_dev_signer = some (lit "1");
  node_env = some (lit "development");
  hostname = λ url. ok (lit "localhost");
  address = ok (lit "0xacc");
  sign_message = λ message. ok (lit "0xs");
  network = sample_network;
  parse_challenge = λ s. fail s;
  parse_session = λ s. fail s;
  resolve_url = λ path base. ok path;
  viem = record {
    is_address = λ s. true;
    get_address = λ s. ok s;
    hex_to_signature = λ s. fail s;
    cannot_read = λ k. k;
  };
}

abbrev sign_request : SignRequest
sign_request = record {
  url = lit "http://localhost:3001/api/dev/sign-message";
  json = some (object (property (lit "message") (string (lit "hello")) end));
}

sign_example :
    SignsSafely sample_signer sign_request (post_sign_message sample_signer sign_request).1
sign_example = post_sign-SignsSafely sample_signer sign_request

signs_hello : (post_sign_message sample_signer sign_request).1 ≡ lit "hello" ∷ []
unfolding post_sign_message is_enabled_at can_use_dev_signer safe_contract_environment
    is_local_request_url public_contract_environment contract_environment_from_runtime_profile
    normalize_runtime_profile profile_of_key normalize_contract_environment read_property to_lower
    trim trim_start is_space starts_with str_eq member find_member
signs_hello = refl

keeps_backslash : safe_redirect_path (some (lit "/\\evil.example")) ≡ lit "/\\evil.example"
unfolding safe_redirect_path starts_with
keeps_backslash = refl
