-- ===== src/Sdk/Request/Laws.antt =====
-- What `ZamaPayRequestSender.request` promises: how often it sends, what it sends, what it returns.
use zamapay.Prelude.{
  ◌∙◌, sym, ap, ℕ, zero, suc, ◌+◌, ◌≤◌, ◌≡◌, refl, ◌⊎◌, inl, inr, Bool, true, false, Option, none,
  some, [], ◌∷◌, ◌++◌, arith, Bool-cases, is_some, ◌or_try◌,
}
use zamapay.Prelude.Text.{Text, lit, to_upper, nonempty, str_eq}
use zamapay.Js.{Number, int, dyadic, infinite, nan, pos, negsuc, IsWithin, Value, undefined}
use zamapay.Sdk.Errors.{Headers}
use zamapay.Sdk.Result.{Result, ok, throw, Thrown, >>=-eq-ok}
use zamapay.Sdk.Request.{
  Host, Event, sent, slept, History, HttpRequest, Response, Sender, RequestOptions, FetchResponse,
  Fetched, response, rejected, normalize_retry_count, normalize_timeout, request_can_retry,
  request_headers,
}
use zamapay.Sdk.Request.ResponseHeaders.{header, headers_to_record}
use zamapay.Sdk.Request.Loop.{
  Call, attempts, settle, retry_headers, prepare, request, caught, attempt_result, read_response,
  parse_json_response,
}
use zamapay.Sdk.Request.Loop.Laws.{
  attempts-zero, attempts-stop, sends, attempts-Ends, Grows, same, more, IsOf, attempts-Grows,
}

normalize_retry_count-le : (o : Option Number) {n : ℕ} → normalize_retry_count o ≡ ok n → n ≤ 5
unfolding normalize_retry_count
normalize_retry_count-le none h = ground arith
normalize_retry_count-le (some (int (pos m))) h = ground arith
normalize_retry_count-le (some (int (negsuc m))) h = ground arith
normalize_retry_count-le (some (dyadic _ _ _)) h = cc
normalize_retry_count-le (some (infinite _)) h = cc
normalize_retry_count-le (some nan) h = cc

-- The text that a request is sent with.
abbrev pub body_text : Host → RequestOptions → Option Text
body_text host options = elim options.body [ none ↦ none | some v ↦ some (host.json_stringify v) ]

-- What `prepare` fixes for every attempt.
pub record IsPrepared (host : Host) (sender : Sender) (method path : Text)
    (options : RequestOptions) (call : Call) : Type 0 where
  pub few : call.retries ≤ 5
  pub retryable : call.retryable ≡ request_can_retry (to_upper method) options.idempotency_key
  pub same_url : call.request.url ≡ sender.base_url ++ path
  pub same_method : call.request.method ≡ to_upper method
  pub same_headers :
      call.request.headers ≡ request_headers sender (is_some options.body) options.idempotency_key
  pub same_body : call.request.body ≡ body_text host options
  pub same_timeout :
      normalize_timeout (options.timeout_ms or_try some sender.timeout_ms)
      ≡ ok call.request.timeout_ms

prepare-IsPrepared :
    (host : Host) (sender : Sender) (method path : Text) (options : RequestOptions) {call : Call}
    → prepare host sender method path options ≡ ok call
    → IsPrepared host sender method path options call
unfolding prepare
prepare-IsPrepared host sender method path options h =
    let (n, en, h') = >>=-eq-ok (normalize_retry_count _) _ h in
    let (t, et, h'') = >>=-eq-ok (normalize_timeout _) _ h' in
    ground (arith, normalize_retry_count-le _ en, et)

request-throw :
    (host : Host) (sender : Sender) (method path : Text) (options : RequestOptions) (past : History)
    {e : Thrown}
    → prepare host sender method path options ≡ throw e
    → request host sender method path options past ≡ (throw e, past)
unfolding request
request-throw host sender method path options past h = rw (h, request)

request-ok :
    (host : Host) (sender : Sender) (method path : Text) (options : RequestOptions) (past : History)
    {call : Call}
    → prepare host sender method path options ≡ ok call
    → request host sender method path options past ≡ attempts host call call.retries 0 past
unfolding request
request-ok host sender method path options past h = rw (h, request)

pub Result-cases {ℓ} :
    {A : Type ℓ} (r : Result A) → ((a : A) × (r ≡ ok a)) ⊎ ((e : Thrown) × (r ≡ throw e))
Result-cases (ok a) = inl (a, refl)
Result-cases (throw e) = inr (e, refl)

retry_headers-none :
    (host : Host) (call : Call) (f : Fetched)
    → call.retryable ≡ false
    → retry_headers host call f ≡ none
unfolding retry_headers
retry_headers-none host call f h = rw h

module _ (host : Host) (sender : Sender) (method path : Text) (options : RequestOptions)
    (past : History) where
  -- A call sends at most six requests.
  pub request_sends_at_most_six :
      sends (request host sender method path options past).1 ≤ sends past + 6
  request_sends_at_most_six = elim (Result-cases (prepare host sender method path options)) [
    | inr (e, h) ↦ rw (request-throw host sender method path options past h) (omega arith)
    | inl (call, h) ↦ rw (request-ok host sender method path options past h) (
        omega (
          arith,
          (attempts-Ends host call call.retries 0 past).bounded,
          (prepare-IsPrepared host sender method path options h).few,
        ))
  ]

  -- A call that is neither GET nor HEAD and has no idempotency key sends at most one request,
  -- whatever the API answers.
  pub request_without_key_sends_once :
      request_can_retry (to_upper method) options.idempotency_key ≡ false
      → sends (request host sender method path options past).1 ≤ sends past + 1
  request_without_key_sends_once once =
      elim (Result-cases (prepare host sender method path options)) [
        | inr (e, h) ↦ rw (request-throw host sender method path options past h) (omega arith)
        | inl (call, h) ↦ rw (request-ok host sender method path options past h) (
            first call call.retries
              ((prepare-IsPrepared host sender method path options h).retryable ∙ once))
      ]
    where
      first :
          (call : Call) (n : ℕ)
          → call.retryable ≡ false
          → sends (attempts host call n 0 past).1 ≤ sends past + 1
      first call zero no_retry = rw attempts-zero (omega arith)
      first call (suc n) no_retry =
          rw (attempts-stop host call n 0 past (retry_headers-none host call _ no_retry))
            (omega arith)

  -- What one event of a call is: the same request each time, to the sender's base URL and the path,
  -- with the method in upper case, the headers of the sender and the key, the body of the options as
  -- JSON text and their timeout; or a sleep from 0 to 60 seconds.
  abbrev pub IsAttempt : Event → Type 0
  IsAttempt (sent r) =
      (r.url ≡ sender.base_url ++ path)
      × (r.method ≡ to_upper method)
      × (r.headers ≡ request_headers sender (is_some options.body) options.idempotency_key)
      × (r.body ≡ body_text host options)
      × (normalize_timeout (options.timeout_ms or_try some sender.timeout_ms) ≡ ok r.timeout_ms)
  IsAttempt (slept d) = IsWithin 60000 d

  Grows-IsAttempt :
      {call : Call} {h : History}
      → IsPrepared host sender method path options call
      → Grows (IsOf call.request) past h
      → Grows IsAttempt past h
  Grows-IsAttempt p same = same
  Grows-IsAttempt p (more {e = sent r} w g) =
      more (rw w (p.same_url, p.same_method, p.same_headers, p.same_body, p.same_timeout))
        (Grows-IsAttempt p g)
  Grows-IsAttempt p (more {e = slept d} w g) = more w (Grows-IsAttempt p g)

  pub request-Grows : Grows IsAttempt past (request host sender method path options past).1
  request-Grows = elim (Result-cases (prepare host sender method path options)) [
    | inr (e, h) ↦ rw (request-throw host sender method path options past h) same
    | inl (call, h) ↦ rw (request-ok host sender method path options past h) (
        Grows-IsAttempt (prepare-IsPrepared host sender method path options h)
          (attempts-Grows host call call.retries 0 past past same))
  ]

caught-ok : (m : Result Response) {r : Response} → caught m ≡ ok r → m ≡ ok r
caught-ok (ok a) h = h
caught-ok (throw e) h = ground arith

-- A response that a value was read from.
pub record IsReadFrom (host : Host) (rep : FetchResponse) (r : Response) : Type 0 where
  pub success : rep.ok ≡ true
  pub raw : Text
  pub read : rep.text ≡ ok raw
  pub parsed : ((raw ≡ []) × (r.value ≡ undefined)) ⊎ (host.json_parse raw ≡ some r.value)

parse-ok :
    (host : Host) (raw : Text) (status : ℕ) (hs : Headers) {v : Value}
    → parse_json_response host raw status hs ≡ ok v
    → ((raw ≡ []) × (v ≡ undefined)) ⊎ (host.json_parse raw ≡ some v)
unfolding parse_json_response
parse-ok host [] status hs h = ground arith
parse-ok host (c ∷ raw) status hs h = ground arith

read_response-ok :
    (host : Host) (call : Call) (rep : FetchResponse) (raw : Text) {r : Response}
    → read_response host call rep raw ≡ ok r
    → (rep.ok ≡ true)
      × (((raw ≡ []) × (r.value ≡ undefined)) ⊎ (host.json_parse raw ≡ some r.value))
unfolding read_response
read_response-ok host call rep raw h = elim (Bool-cases rep.ok) [
  | inr e ↦ cc (rw (e, read_response) at h)
  | inl e ↦
      let hs = headers_to_record rep.headers in
      let (v, ev, attached) =
        >>=-eq-ok (parse_json_response host raw rep.status hs) _ (rw (e, read_response) at h) in
      (e, ground (arith, parse-ok host raw rep.status hs ev, attached))
]

settle-ok :
    (host : Host) (call : Call) (f : Fetched) {r : Response}
    → settle host call f ≡ ok r
    → (rep : FetchResponse) × (f ≡ response rep) × IsReadFrom host rep r
unfolding settle
settle-ok host call (response rep) h =
    let (raw, read, h') = >>=-eq-ok rep.text _ (caught-ok _ h) in
    let (success, parsed) = read_response-ok host call rep raw h' in
    (rep, refl, record { success = success; raw = raw; read = read; parsed = parsed })
settle-ok host call (rejected e true) h =
    cc (caught-ok (attempt_result host call (rejected e true)) h)
settle-ok host call (rejected e false) h =
    cc (caught-ok (attempt_result host call (rejected e false)) h)

module _ (host : Host) (sender : Sender) (method path : Text) (options : RequestOptions)
    (past : History) where
  -- A value comes from the last request, from a response that reports success: its parsed body, or
  -- `undefined` for an empty one.
  pub request-ok_reads_last :
      {r : Response}
      → (request host sender method path options past).0 ≡ ok r
      → (last : History) × (req : HttpRequest) × (rep : FetchResponse) × ((request host sender
            method path options past).1
          ≡ sent req ∷ last)
        × (host.fetch last req ≡ response rep)
        × IsReadFrom host rep r
  request-ok_reads_last done = elim (Result-cases (prepare host sender method path options)) [
    | inr (e, h) ↦ cc (rw (request-throw host sender method path options past h) at done)
    | inl (call, h) ↦
        let w = attempts-Ends host call call.retries 0 past in
        let same = request-ok host sender method path options past h in
        let (rep, answered, read) =
          settle-ok host call _ (sym w.result ∙ ap (λ p. p.0) (sym same) ∙ done) in
        (w.last, call.request, rep, ap (λ p. p.1) same ∙ w.events, answered, read)
  ]

-- An idempotency key that is not empty stands in the headers of a request.
pub request_headers-key :
    (sender : Sender) (has_body : Bool) (key : Text)
    → nonempty key ≡ true
    → header (lit "idempotency-key") (request_headers sender has_body (some key)) ≡ some key
unfolding request_headers header str_eq
request_headers-key sender true key full = rw full
request_headers-key sender false key full = rw full
