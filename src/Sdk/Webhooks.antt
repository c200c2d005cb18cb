-- ===== src/Sdk/Webhooks.antt =====
-- packages/zamapay-server/src/webhooks.ts: signed webhooks. HMAC, UTF-8, `JSON.parse` and the clock
-- are the host's; base64 is that of `Js/Base64`. Seconds are whole numbers from 0.
pub mod Secret
pub mod Words
pub mod Verify
pub mod RoundTrip
use zamapay.Prelude.{
  ℕ, ◌+◌, ◌-◌, ◌/◌, ◌%◌, Bool, true, false, ◌&&◌, ◌||◌, not, Option, none, some, List, [], ◌∷◌,
  ◌++◌, ltb, leb, ◌==◌, any, ◌or_use◌, ◌or_try◌, if◌then◌else◌, keep, length, replicate, drop,
}
use zamapay.Prelude.Text.{
  Text, lit, str_eq, nonempty, is_space, trim, to_lower, starts_with, all_digits, drop_trailing,
  pad_end,
}
use zamapay.Prelude.Decimal.{decimal, value}
use zamapay.Js.{Value, max_safe_integer}
use zamapay.Js.Base64
use zamapay.Js.Base64.{is_letter, encode, decode}
use zamapay.Sdk.Errors.{coded, webhook_verification_error}
use zamapay.Sdk.Result.{Thrown, zamapay_error, Result, ok, throw, ◌>>=◌, ◌>>◌, raise, require}
use zamapay.Sdk.Request.{HeaderValue, absent, one, many}
use zamapay.Sdk.Request.ResponseHeaders.{join}

pub record WebhookHost : Type 0 where
  -- `createHmac("sha256", key).update(text).digest()`
  pub hmac_sha256 : List ℕ → Text → List ℕ
  -- `Buffer.from(text)`
  pub utf8_encode : Text → List ℕ
  -- `buffer.toString("utf8")`
  pub utf8_decode : List ℕ → Text
  pub json_parse : Text → Option Value
  -- `Date.now()`
  pub now : ℕ

pub data RawWebhookBody : Type 0 where
  text : Text → RawWebhookBody
  bytes : List ℕ → RawWebhookBody
  -- anything else, such as an object that was parsed already
  parsed : RawWebhookBody

pub data WebhookHeaders : Type 0 where
  record_of : List (Text × HeaderValue) → WebhookHeaders
  getter : (Text → Option Text) → WebhookHeaders

pub record VerificationOptions : Type 0 where
  pub now_unix_seconds : Option ℕ
  pub secret : Text
  pub tolerance_seconds : Option ℕ

pub record TestHeaderOptions : Type 0 where
  pub message_id : Option Text
  pub payload : RawWebhookBody
  pub secret : Text
  pub timestamp : Option ℕ

abbrev pub svix_id : Text
svix_id = lit "svix-id"

abbrev pub svix_timestamp : Text
svix_timestamp = lit "svix-timestamp"

abbrev pub svix_signature : Text
svix_signature = lit "svix-signature"

abbrev pub fail {ℓ} : {A : Type ℓ} → Text → Result A
fail = raise webhook_verification_error

-- `/^=*$/` with at most two
abbrev pub is_padding : Text → Bool
is_padding [] = true
is_padding (c ∷ []) = c == b'='
is_padding (c ∷ d ∷ []) = (c == b'=') && (d == b'=')
is_padding _ = false

unfoldable pub letters_then_padding : Text → Bool
letters_then_padding [] = true
letters_then_padding (c ∷ s) =
    let rest = letters_then_padding s in if is_letter c then rest else is_padding (c ∷ s)

-- `/^[A-Za-z0-9+/]+={0,2}$/.test(s)`
unfoldable pub is_base64 : Text → Bool
unfolding letters_then_padding
is_base64 [] = false
is_base64 (c ∷ s) = is_letter c && letters_then_padding s

abbrev pub without_prefix : Text → Text
without_prefix secret =
    if starts_with secret (lit "whsec_") then drop (length (lit "whsec_")) secret else secret

abbrev pub padded : Text → Text
padded s = pad_end (length s + (4 - length s % 4) % 4) b'=' s

abbrev pub invalid_secret {ℓ} : {A : Type ℓ} → Result A
invalid_secret = fail (lit "invalid_secret")

-- The rest of `webhookSecretKey`, for the text that the prefix and the white space are taken from.
unfoldable pub key_of_normalized : Text → Result (List ℕ)
key_of_normalized normalized =
    let key = decode (padded normalized) in
    let canonical = drop_trailing b'=' (encode key) in
    if not (is_base64 normalized)
    then invalid_secret
    else if length key == 0 || not (str_eq canonical (drop_trailing b'=' normalized))
    then invalid_secret
    else ok key

unfoldable pub webhook_secret_key : Text → Result (List ℕ)
webhook_secret_key secret = key_of_normalized (trim (without_prefix secret))

abbrev pub signed_base : Text → Text → Text → Text
signed_base message_id timestamp raw_body =
    message_id ++ (lit "." ++ (timestamp ++ (lit "." ++ raw_body)))

unfoldable pub signature_for : WebhookHost → Text → Text → Text → Text → Result Text
signature_for host secret message_id timestamp raw_body = do
  key ← webhook_secret_key secret
  ok (lit "v1," ++ encode (host.hmac_sha256 key (signed_base message_id timestamp raw_body)))

-- The loop of `readHeader` over the entries of a record.
unfoldable pub read_entries : List (Text × HeaderValue) → Text → Option Text
read_entries [] name = none
read_entries ((key, absent) ∷ rest) name =
    if str_eq (to_lower key) name then none else read_entries rest name
read_entries ((key, one value) ∷ rest) name =
    if str_eq (to_lower key) name then some value else read_entries rest name
read_entries ((key, many values) ∷ rest) name =
    if str_eq (to_lower key) name then some (join (lit " ") values) else read_entries rest name

unfoldable pub read_header : WebhookHeaders → Text → Option Text
unfolding read_entries
read_header (getter get) name = get name or_try get (to_lower name)
read_header (record_of entries) name = read_entries entries name

unfoldable pub required_header : WebhookHeaders → Text → Result Text
required_header headers name = elim (read_header headers name) [
  | none ↦ fail (lit "missing_header")
  | some value ↦ if nonempty value then ok value else fail (lit "missing_header")
]

unfoldable pub raw_body_to_string : WebhookHost → RawWebhookBody → Result Text
raw_body_to_string host (text s) = ok s
raw_body_to_string host (bytes bs) = ok (host.utf8_decode bs)
raw_body_to_string host parsed = fail (lit "invalid_raw_body")

unfoldable pub verify_timestamp : Text → ℕ → ℕ → Result (Unit {0})
verify_timestamp timestamp now tolerance = do
  require (all_digits timestamp) webhook_verification_error (lit "invalid_timestamp")
  require (leb (value timestamp) max_safe_integer) webhook_verification_error
      (lit "invalid_timestamp")
  require (not (ltb (value timestamp + tolerance) now)) webhook_verification_error
      (lit "timestamp_too_old")
  require (not (ltb (now + tolerance) (value timestamp))) webhook_verification_error
      (lit "timestamp_too_far_in_future")

-- The pieces of `s.split(/\s+/).filter(Boolean)`; `piece` is the one that is being read.
unfoldable pub words_from : Text → Text → List Text
words_from piece [] = if nonempty piece then piece ∷ [] else []
words_from piece (c ∷ s) =
    let rest = words_from [] s in
    let longer = words_from (piece ++ c ∷ []) s in
    if is_space c then (if nonempty piece then piece ∷ rest else rest) else longer

-- `Buffer.from(left)` equals `Buffer.from(right)`
abbrev pub safe_equal : WebhookHost → Text → Text → Bool
safe_equal host left right = str_eq (host.utf8_encode left) (host.utf8_encode right)

unfoldable pub verify_signature : WebhookHost → Text → Text → Text → Text → Text → Result (Unit {0})
verify_signature host secret message_id timestamp signature_header raw_body = do
  expected ← signature_for host secret message_id timestamp raw_body
  require (any (λ candidate. safe_equal host candidate expected) (words_from [] signature_header))
      webhook_verification_error (lit "invalid_signature")

unfoldable pub verify_webhook :
    WebhookHost → RawWebhookBody → WebhookHeaders → VerificationOptions → Result (Unit {0})
verify_webhook host raw_body headers options = do
  body ← raw_body_to_string host raw_body
  message_id ← required_header headers svix_id
  timestamp ← required_header headers svix_timestamp
  signature ← required_header headers svix_signature
  verify_timestamp timestamp (options.now_unix_seconds or_use host.now / 1000)
      (options.tolerance_seconds or_use 300)
  verify_signature host options.secret message_id timestamp signature body

abbrev pub test_message_id : WebhookHost → TestHeaderOptions → Text
test_message_id host options = options.message_id or_use lit "msg_test_" ++ decimal host.now

unfoldable pub generate_test_header_string : WebhookHost → TestHeaderOptions → Result Text
generate_test_header_string host options = do
  body ← raw_body_to_string host options.payload
  signature_for host options.secret (test_message_id host options)
      (decimal (options.timestamp or_use host.now / 1000)) body

unfoldable pub generate_test_headers : WebhookHost → TestHeaderOptions → Result WebhookHeaders
generate_test_headers host options = do
  let message_id = test_message_id host options
  let timestamp = decimal (options.timestamp or_use host.now / 1000)
  signature ←
      generate_test_header_string host
        (record options { message_id = some message_id; timestamp = some (value timestamp) })
  ok (
      record_of (
        (svix_id, one message_id)
        ∷ (svix_signature, one signature)
        ∷ (svix_timestamp, one timestamp)
        ∷ []))

-- This error carries no code.
abbrev pub invalid_json : Thrown
invalid_json =
    let e = coded webhook_verification_error (lit "") in zamapay_error (record e { code = none })

unfoldable pub construct_webhook_event :
    WebhookHost → RawWebhookBody → WebhookHeaders → VerificationOptions → Result Value
unfolding verify_webhook
construct_webhook_event host raw_body headers options = do
  verify_webhook host raw_body headers options
  body ← raw_body_to_string host raw_body
  elim (host.json_parse body) [ none ↦ throw invalid_json | some v ↦ ok v ]
