-- ===== src/Sdk/Tests/Hooks.antt =====
-- Signed webhooks at concrete inputs.
use zamapay.Prelude.{ℕ, ◌%◌, ◌≡◌, refl, ◌↔◌, none, some, List, [], ◌∷◌, ◌++◌, arith, All, length}
use zamapay.Prelude.Text.{Text, lit, trim, starts_with}
use zamapay.Js.{object, end}
use zamapay.Js.Base64.{encode, IsByte}
use zamapay.Sdk.Result.{ok}
use zamapay.Sdk.Webhooks.{
  WebhookHost, WebhookHeaders, VerificationOptions, TestHeaderOptions, text, webhook_secret_key,
  key_of_normalized, is_base64, generate_test_headers, verify_webhook, fail, raw_body_to_string,
}
use zamapay.Sdk.Webhooks.Secret.{webhook_secret_key-encode}
use zamapay.Sdk.Webhooks.Verify.{IsAccepted, verify_webhook_iff}
use zamapay.Sdk.Webhooks.RoundTrip.{three_headers, generate-verify_webhook}

-- The digest is the length of the text, in one byte.
abbrev host : WebhookHost
host = record {
  hmac_sha256 = λ key s. length s % 256 ∷ [];
  utf8_encode = λ s. s;
  utf8_decode = λ bs. bs;
  json_parse = λ s. some (object end);
  now = 1778760000000;
}

digest-IsByte : (k : List ℕ) (s : Text) → All IsByte (host.hmac_sha256 k s)
digest-IsByte k s = (omega arith, tt)

abbrev key : List ℕ
key = 7 ∷ 8 ∷ 9 ∷ 255 ∷ []

abbrev secret : Text
secret = lit "whsec_" ++ encode key

secret_example : webhook_secret_key secret ≡ ok key
secret_example = webhook_secret_key-encode key (omega arith) (λ e. cc)

secret_text : encode key ≡ lit "BwgJ/w=="
unfolding encode
secret_text = refl

blank_secret : webhook_secret_key (lit "whsec_ ") ≡ fail (lit "invalid_secret")
unfolding webhook_secret_key key_of_normalized is_base64 trim starts_with
blank_secret = refl

abbrev test_headers : TestHeaderOptions
test_headers = record {
  message_id = some (lit "msg_1");
  payload = text (lit "{}");
  secret = secret;
  timestamp = some 1778760000;
}

abbrev check : VerificationOptions
check = record { now_unix_seconds = some 1778760200; secret = secret; tolerance_seconds = none }

raw_example : raw_body_to_string host test_headers.payload ≡ ok (lit "{}")
unfolding raw_body_to_string
raw_example = refl

generate-verify_example :
    (headers : WebhookHeaders) × (generate_test_headers host test_headers ≡ ok headers)
    × (verify_webhook host test_headers.payload headers check ≡ ok tt)
generate-verify_example =
    generate-verify_webhook host test_headers check key (lit "{}") digest-IsByte secret_example refl
      raw_example refl (omega arith) (omega arith) (omega arith)

-- A signature header with another candidate before the right one.
abbrev rotated : WebhookHeaders
rotated = three_headers (lit "msg_1") (lit "v1,old v1,Ew==") (lit "1778760000")

verify_example :
    (verify_webhook host (text (lit "{}")) rotated check ≡ ok tt)
    ↔ IsAccepted host (text (lit "{}")) rotated check
verify_example = verify_webhook_iff host (text (lit "{}")) rotated check
