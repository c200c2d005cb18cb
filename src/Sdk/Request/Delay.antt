-- ===== src/Sdk/Request/Delay.antt =====
-- How long the sender sleeps before a retry, in milliseconds.
use zamapay.Prelude.{
  ℕ, ◌+◌, ◌*◌, ◌^◌, ◌≡◌, true, false, Option, none, some, leb, Bool-cases, arith, if◌then◌else◌,
  Option-cases, inl, inr, refl,
}
use zamapay.Prelude.Text.{Text, lit, nonempty}
use zamapay.Js.{
  Number, int, dyadic, infinite, nan, ℤ, pos, negsuc, pos_part, neg_part, sub_ℕ, is_finite,
  times_thousand, clamp_to, IsWithin,
}
use zamapay.Sdk.Errors.{Headers}
use zamapay.Sdk.Request.{Host, History}
use zamapay.Sdk.Request.ResponseHeaders.{header}

abbrev pub clamp_retry_after : Number → Number
clamp_retry_after = clamp_to 60000

-- `clampRetryAfter(retryAt - Date.now())`
abbrev until : Host → History → ℤ → Number
until host past at = clamp_retry_after (int (sub_ℕ (pos_part at) (neg_part at + host.now past)))

retry_after_of : Host → History → Text → Option Number
retry_after_of host past value =
    if is_finite (host.to_number value)
    then some (clamp_retry_after (times_thousand (host.to_number value)))
    else elim (host.date_parse value) [ none ↦ none | some at ↦ some (until host past at) ]

unfoldable pub parse_retry_after : Host → History → Option Text → Option Number
unfolding retry_after_of
parse_retry_after host past none = none
parse_retry_after host past (some value) =
    if nonempty value then retry_after_of host past value else none

-- `Math.min(100 * 2 ** attempt, 1_000)`
abbrev pub backoff : ℕ → ℕ
backoff attempt = if leb (100 * 2 ^ attempt) 1000 then 100 * 2 ^ attempt else 1000

unfoldable pub retry_delay_millis : Host → History → ℕ → Headers → Number
unfolding parse_retry_after
retry_delay_millis host past attempt h =
    elim (parse_retry_after host past (header (lit "retry-after") h)) [
      | none ↦ int (pos (backoff attempt))
      | some delay ↦ delay
    ]

clamp_IsWithin : (n : Number) → is_finite n ≡ true → IsWithin 60000 (clamp_retry_after n)
clamp_IsWithin (int (pos n)) h = ground arith
clamp_IsWithin (int (negsuc n)) h = ground arith
clamp_IsWithin (dyadic true m k) h = ground arith
clamp_IsWithin (dyadic false m k) h = elim (Bool-cases (leb m (60000 * 2 ^ k))) [
  | inl e ↦ rw e (ground arith)
  | inr e ↦ rw e (omega arith)
]
clamp_IsWithin (infinite _) h = cc
clamp_IsWithin nan h = cc

times_thousand-finite : (n : Number) → is_finite n ≡ true → is_finite (times_thousand n) ≡ true
times_thousand-finite (int (pos n)) h = refl
times_thousand-finite (int (negsuc n)) h = refl
times_thousand-finite (dyadic _ _ _) h = refl
times_thousand-finite (infinite _) h = h
times_thousand-finite nan h = h

abbrev InRange : Option Number → Type 0
InRange none = Unit
InRange (some d) = IsWithin 60000 d

retry_after_of-InRange :
    (host : Host) (past : History) (s : Text) → InRange (retry_after_of host past s)
unfolding retry_after_of
retry_after_of-InRange host past s = elim (Bool-cases (is_finite (host.to_number s))) [
  | inl e ↦ rw (e, InRange) (clamp_IsWithin _ (times_thousand-finite _ e))
  | inr e ↦ elim (Option-cases (host.date_parse s)) [
    | inl e' ↦ rw (e, e', InRange) tt
    | inr (at, e') ↦
        rw (e, e', InRange)
          (clamp_IsWithin (int (sub_ℕ (pos_part at) (neg_part at + host.now past))) refl)
  ]
]

parse_retry_after-InRange :
    (host : Host) (past : History) (o : Option Text) → InRange (parse_retry_after host past o)
unfolding parse_retry_after
parse_retry_after-InRange host past none = tt
parse_retry_after-InRange host past (some s) = elim (Bool-cases (nonempty s)) [
  | inl e ↦ rw e (retry_after_of-InRange host past s)
  | inr e ↦ rw e tt
]

pub retry_delay_IsWithin :
    (host : Host) (past : History) (attempt : ℕ) (h : Headers)
    → IsWithin 60000 (retry_delay_millis host past attempt h)
unfolding retry_delay_millis
retry_delay_IsWithin host past attempt h =
    go (parse_retry_after host past (header (lit "retry-after") h))
      (parse_retry_after-InRange host past _)
  where
    go :
        (o : Option Number)
        → InRange o
        → IsWithin 60000 (elim o [ none ↦ int (pos (backoff attempt)) | some delay ↦ delay ])
    go none _ = ground arith
    go (some d) w = w
