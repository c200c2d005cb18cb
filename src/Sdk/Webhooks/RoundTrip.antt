-- ===== src/Sdk/Webhooks/RoundTrip.antt =====
-- Test headers that the SDK generates are accepted by the SDK.
use zamapay.Prelude.{
  ℕ, ◌+◌, ◌/◌, ◌≤◌, ◌≡◌, refl, true, some, List, [], ◌∷◌, ◌++◌, arith, All, here, ◌or_use◌,
}
use zamapay.Prelude.Text.{Text, lit, nonempty, is_space, str_eq, to_lower, all_digits}
use zamapay.Prelude.Text.Laws.{NotSpace}
use zamapay.Prelude.Decimal.{decimal, value-decimal, decimal-all_digits}
use zamapay.Js.{max_safe_integer}
use zamapay.Js.Base64.{encode, IsByte}
use zamapay.Sdk.Result.{ok}
use zamapay.Sdk.Request.{one}
use zamapay.Sdk.Webhooks.{
  WebhookHost, WebhookHeaders, record_of, VerificationOptions, TestHeaderOptions, svix_id,
  svix_timestamp, svix_signature, webhook_secret_key, raw_body_to_string, read_header, words_from,
  signature_for, signed_base, test_message_id, generate_test_header_string, generate_test_headers,
  verify_webhook,
}
use zamapay.Sdk.Webhooks.Secret.{encode-NotSpace}
use zamapay.Sdk.Webhooks.Words.{words_from-NotSpace}
use zamapay.Sdk.Webhooks.Verify.{IsFresh, IsAccepted-verify_webhook}

abbrev pub three_headers : Text → Text → Text → WebhookHeaders
three_headers id signature time =
    record_of
      ((svix_id, one id) ∷ (svix_signature, one signature) ∷ (svix_timestamp, one time) ∷ [])

read-three_headers :
    (id signature time : Text)
    → (read_header (three_headers id signature time) svix_id ≡ some id)
      × (read_header (three_headers id signature time) svix_signature ≡ some signature)
      × (read_header (three_headers id signature time) svix_timestamp ≡ some time)
unfolding read_header str_eq to_lower
read-three_headers id signature time = (refl, refl, refl)

signature-NotSpace : (mac : List ℕ) → All IsByte mac → All NotSpace (lit "v1," ++ encode mac)
unfolding is_space
signature-NotSpace mac h = (refl, (refl, (refl, encode-NotSpace mac h)))

words-signature :
    (mac : List ℕ)
    → All IsByte mac
    → words_from [] (lit "v1," ++ encode mac) ≡ (lit "v1," ++ encode mac) ∷ []
words-signature mac h = words_from-NotSpace [] _ (signature-NotSpace mac h)

nonempty-digits : (s : Text) → all_digits s ≡ true → nonempty s ≡ true
unfolding all_digits
nonempty-digits s h = ground arith

module _ (host : WebhookHost) (o : TestHeaderOptions) (v : VerificationOptions) (key : List ℕ)
    (body : Text) where
  abbrev sent_at : ℕ
  sent_at = o.timestamp or_use host.now / 1000

  abbrev seen_at : ℕ
  seen_at = v.now_unix_seconds or_use host.now / 1000

  abbrev tolerance : ℕ
  tolerance = v.tolerance_seconds or_use 300

  abbrev signature : Text
  signature =
      lit "v1,"
      ++ encode (host.hmac_sha256 key (signed_base (test_message_id host o) (decimal sent_at) body))

  signature_for-sent :
      webhook_secret_key o.secret ≡ ok key
      → signature_for host o.secret (test_message_id host o) (decimal sent_at) body ≡ ok signature
  unfolding signature_for
  signature_for-sent secret = rw secret

  generate_lem :
      webhook_secret_key o.secret ≡ ok key
      → raw_body_to_string host o.payload ≡ ok body
      → generate_test_headers host o
        ≡ ok (three_headers (test_message_id host o) signature (decimal sent_at))
  unfolding generate_test_headers generate_test_header_string
  generate_lem secret raw = rw (raw, value-decimal, signature_for-sent secret)

  sent-IsFresh :
      sent_at ≤ max_safe_integer
      → seen_at ≤ sent_at + tolerance
      → sent_at ≤ seen_at + tolerance
      → IsFresh (decimal sent_at) seen_at tolerance
  sent-IsFresh safe not_old not_early = record {
    digits = decimal-all_digits sent_at;
    safe = rw value-decimal safe;
    not_old = rw value-decimal not_old;
    not_early = rw value-decimal not_early;
  }

  -- Headers generated for a payload, a valid secret, a message id that is not empty and a safe
  -- timestamp are accepted with that payload and secret, at every time within the tolerance of the
  -- timestamp, where HMAC digests are bytes.
  pub generate-verify_webhook :
      ((k : List ℕ) (s : Text) → All IsByte (host.hmac_sha256 k s))
      → webhook_secret_key o.secret ≡ ok key
      → v.secret ≡ o.secret
      → raw_body_to_string host o.payload ≡ ok body
      → nonempty (test_message_id host o) ≡ true
      → sent_at ≤ max_safe_integer
      → seen_at ≤ sent_at + tolerance
      → sent_at ≤ seen_at + tolerance
      → (headers : WebhookHeaders) × (generate_test_headers host o ≡ ok headers)
        × (verify_webhook host o.payload headers v ≡ ok tt)
  generate-verify_webhook digest secret same_secret raw full safe not_old not_early =
      let id = test_message_id host o in
      let (read_id, read_signature, read_time) =
        read-three_headers id signature (decimal sent_at) in
      (
        three_headers id signature (decimal sent_at),
        generate_lem secret raw,
        IsAccepted-verify_webhook host o.payload _ v (record {
          body = body;
          message_id = id;
          timestamp = decimal sent_at;
          signature = signature;
          expected = signature;
          candidate = signature;
          body_of = raw;
          id_of = read_id;
          id_full = full;
          timestamp_of = read_time;
          timestamp_full = nonempty-digits _ (decimal-all_digits sent_at);
          signature_of = read_signature;
          signature_full = refl;
          fresh = sent-IsFresh safe not_old not_early;
          expected_of = rw same_secret (signature_for-sent secret);
          listed = rw (words-signature _ (digest _ _)) here;
          same_bytes = refl;
        }),
      )
