-- ===== src/Sdk/Webhooks/Verify.antt =====
-- When a webhook is accepted.
use zamapay.Prelude.{
  ℕ, ◌+◌, ◌/◌, ◌≤◌, ◌≡◌, refl, ◌↔◌, Bool, true, false, some, [], arith, Member, ◌or_use◌,
  Bool-cases, Option-cases, inl, inr,
}
use zamapay.Prelude.Text.{Text, nonempty, all_digits, str_eq_iff}
use zamapay.Prelude.Decimal.{value}
use zamapay.Js.{max_safe_integer}
use zamapay.Sdk.Errors.{ErrorClass}
use zamapay.Sdk.Result.{ok, require, >>=-eq-ok}
use zamapay.Sdk.Webhooks.{
  WebhookHost, RawWebhookBody, WebhookHeaders, VerificationOptions, svix_id, svix_timestamp,
  svix_signature, read_header, required_header, raw_body_to_string, verify_timestamp, signature_for,
  words_from, safe_equal, verify_signature, verify_webhook,
}
use zamapay.Sdk.Webhooks.Words.{any-Member, Member-any}

require-ok : (b : Bool) (c : ErrorClass) (k : Text) {u : Unit {0}} → require b c k ≡ ok u → b ≡ true
require-ok true c k h = refl
require-ok false c k h = cc

required_header-ok :
    (headers : WebhookHeaders) (name : Text) {v : Text}
    → required_header headers name ≡ ok v
    → (read_header headers name ≡ some v) × (nonempty v ≡ true)
unfolding required_header
required_header-ok headers name h = elim (Option-cases (read_header headers name)) [
  | inl e ↦ cc (rw (e, required_header) at h)
  | inr (v, e) ↦ elim (Bool-cases (nonempty v)) [
    | inr e' ↦ cc (rw (e, required_header, e') at h)
    | inl e' ↦ ground (arith, rw (e, required_header, e') at h)
  ]
]

required_header-some :
    (headers : WebhookHeaders) (name : Text) {v : Text}
    → read_header headers name ≡ some v
    → nonempty v ≡ true
    → required_header headers name ≡ ok v
unfolding required_header
required_header-some headers name e e' = rw (e, required_header, e')

-- The timestamp is a run of digits for a safe integer, within the tolerance of now on both sides.
pub record IsFresh (timestamp : Text) (now tolerance : ℕ) : Type 0 where
  pub digits : all_digits timestamp ≡ true
  pub safe : value timestamp ≤ max_safe_integer
  pub not_old : now ≤ value timestamp + tolerance
  pub not_early : value timestamp ≤ now + tolerance

verify_timestamp-ok :
    (timestamp : Text) (now tolerance : ℕ) {u : Unit {0}}
    → verify_timestamp timestamp now tolerance ≡ ok u
    → IsFresh timestamp now tolerance
unfolding verify_timestamp
verify_timestamp-ok timestamp now tolerance h = ground arith

IsFresh-verify_timestamp :
    (timestamp : Text) (now tolerance : ℕ)
    → IsFresh timestamp now tolerance
    → verify_timestamp timestamp now tolerance ≡ ok tt
unfolding verify_timestamp
IsFresh-verify_timestamp timestamp now tolerance h = ground arith

-- A webhook that is accepted: the body is raw, the three headers are there and not empty, the
-- timestamp is fresh, the secret is valid, and a candidate of the signature header has the bytes of
-- the expected signature.
pub record IsAccepted (host : WebhookHost) (raw_body : RawWebhookBody) (headers : WebhookHeaders)
    (options : VerificationOptions) : Type 0 where
  pub body : Text
  pub message_id : Text
  pub timestamp : Text
  pub signature : Text
  pub expected : Text
  pub candidate : Text
  pub body_of : raw_body_to_string host raw_body ≡ ok body
  pub id_of : read_header headers svix_id ≡ some message_id
  pub id_full : nonempty message_id ≡ true
  pub timestamp_of : read_header headers svix_timestamp ≡ some timestamp
  pub timestamp_full : nonempty timestamp ≡ true
  pub signature_of : read_header headers svix_signature ≡ some signature
  pub signature_full : nonempty signature ≡ true
  pub fresh :
      IsFresh timestamp
        (options.now_unix_seconds or_use host.now / 1000)
        (options.tolerance_seconds or_use 300)
  pub expected_of : signature_for host options.secret message_id timestamp body ≡ ok expected
  pub listed : Member candidate (words_from [] signature)
  pub same_bytes : host.utf8_encode candidate ≡ host.utf8_encode expected

verify_signature-ok :
    (host : WebhookHost) (secret message_id timestamp signature body : Text) {u : Unit {0}}
    → verify_signature host secret message_id timestamp signature body ≡ ok u
    → (expected : Text) × (candidate : Text) × (signature_for host secret message_id timestamp body
        ≡ ok expected)
      × Member candidate (words_from [] signature)
      × (host.utf8_encode candidate ≡ host.utf8_encode expected)
unfolding verify_signature
verify_signature-ok host secret message_id timestamp signature body h =
    let (expected, e, h') = >>=-eq-ok (signature_for host secret message_id timestamp body) _ h in
    let (candidate, m, same) = any-Member _ (words_from [] signature) (require-ok _ _ _ h') in
    (expected, candidate, e, m, (str_eq_iff _ _).0 same)

verify_webhook-ok :
    (host : WebhookHost) (raw_body : RawWebhookBody) (headers : WebhookHeaders)
    (options : VerificationOptions)
    → verify_webhook host raw_body headers options ≡ ok tt
    → IsAccepted host raw_body headers options
unfolding verify_webhook
verify_webhook-ok host raw_body headers options h =
    let (body, body_of, h₁) = >>=-eq-ok (raw_body_to_string host raw_body) _ h in
    let (id, id_of, h₂) = >>=-eq-ok (required_header headers svix_id) _ h₁ in
    let (time, time_of, h₃) = >>=-eq-ok (required_header headers svix_timestamp) _ h₂ in
    let (signature, signature_of, h₄) = >>=-eq-ok (required_header headers svix_signature) _ h₃ in
    let (u, fresh, h₅) = >>=-eq-ok (verify_timestamp time _ _) _ h₄ in
    let (expected, candidate, e, m, same) = verify_signature-ok host _ id time signature body h₅ in
    record {
      body = body;
      message_id = id;
      timestamp = time;
      signature = signature;
      expected = expected;
      candidate = candidate;
      body_of = body_of;
      id_of = (required_header-ok headers _ id_of).0;
      id_full = (required_header-ok headers _ id_of).1;
      timestamp_of = (required_header-ok headers _ time_of).0;
      timestamp_full = (required_header-ok headers _ time_of).1;
      signature_of = (required_header-ok headers _ signature_of).0;
      signature_full = (required_header-ok headers _ signature_of).1;
      fresh = verify_timestamp-ok time _ _ fresh;
      expected_of = e;
      listed = m;
      same_bytes = same;
    }

pub IsAccepted-verify_webhook :
    (host : WebhookHost) (raw_body : RawWebhookBody) (headers : WebhookHeaders)
    (options : VerificationOptions)
    → IsAccepted host raw_body headers options
    → verify_webhook host raw_body headers options ≡ ok tt
unfolding verify_webhook verify_signature
IsAccepted-verify_webhook host raw_body headers options a = rw (
  a.body_of,
  required_header-some headers svix_id a.id_of a.id_full,
  required_header-some headers svix_timestamp a.timestamp_of a.timestamp_full,
  required_header-some headers svix_signature a.signature_of a.signature_full,
  IsFresh-verify_timestamp a.timestamp _ _ a.fresh,
  a.expected_of,
  Member-any (λ candidate. safe_equal host candidate a.expected) (words_from [] a.signature)
      a.listed ((str_eq_iff _ _).1 a.same_bytes),
)

-- `verifyWebhook` returns exactly for the webhooks that are accepted, and throws for all others.
pub verify_webhook_iff :
    (host : WebhookHost) (raw_body : RawWebhookBody) (headers : WebhookHeaders)
    (options : VerificationOptions)
    → (verify_webhook host raw_body headers options ≡ ok tt)
      ↔ IsAccepted host raw_body headers options
verify_webhook_iff host raw_body headers options = (
  verify_webhook-ok host raw_body headers options,
  IsAccepted-verify_webhook host raw_body headers options,
)
