-- ===== src/Sdk/Webhooks/Secret.antt =====
-- Webhook secrets: what is accepted, and that a generated secret gives back its key.
use zamapay.Prelude.{
  ℕ, zero, suc, ◌+◌, ◌<◌, ◌≡◌, ◌≢◌, refl, ap, ◌∙◌, true, List, [], ◌∷◌, ◌++◌, map, arith, All,
  All-append, replicate, append_assoc,
}
use zamapay.Prelude.Text.{lit, is_space, str_eq_refl}
use zamapay.Prelude.Text.Laws.{NotSpace, trim-NotSpace, starts_with-append}
use zamapay.Js.Base64.{
  encode, decode, letter, sextets, padding, is_letter, IsByte, letter_laws, sextets-below,
  decode-encode,
}
use zamapay.Sdk.Result.{ok}
use zamapay.Sdk.Webhooks.{
  key_of_normalized, webhook_secret_key, padded, is_base64, letters_then_padding,
}

letter-NotSpace : (n : ℕ) → n < 64 → NotSpace (letter n)
unfolding letter is_space
letter-NotSpace n h = ground arith

All-replicate : (P : ℕ → Type 0) (n c : ℕ) → P c → All P (replicate n c)
All-replicate P zero c h = tt
All-replicate P (suc n) c h = (h, All-replicate P n c h)

All-letters :
    (P : ℕ → Type 0) (ns : List ℕ)
    → ((n : ℕ) → n < 64 → P (letter n))
    → All (λ n. n < 64) ns
    → All P (map letter ns)
All-letters P [] f _ = tt
All-letters P (n ∷ ns) f (h, hs) = (f n h, All-letters P ns f hs)

pub encode-NotSpace : (bs : List ℕ) → All IsByte bs → All NotSpace (encode bs)
unfolding encode is_space
encode-NotSpace bs h =
    All-append NotSpace (map letter (sextets bs)) _
      (All-letters NotSpace (sextets bs) letter-NotSpace (sextets-below bs h))
      (All-replicate NotSpace (padding bs) b'=' refl)

replicate-append : (m n c : ℕ) → replicate m c ++ replicate n c ≡ replicate {A = ℕ} (m + n) c
replicate-append zero n c = let e : zero + n ≡ n = omega arith in rw e
replicate-append (suc m) n c =
    let e : suc m + n ≡ suc (m + n) = omega arith in rw (e, replicate-append m n c)

letters_then_padding-encode :
    (ns : List ℕ) (n : ℕ)
    → n < 3
    → All (λ k. k < 64) ns
    → letters_then_padding (map letter ns ++ replicate n b'=') ≡ true
unfolding letters_then_padding is_letter
letters_then_padding-encode [] zero h _ = refl
letters_then_padding-encode [] (suc zero) h _ = refl
letters_then_padding-encode [] (suc (suc zero)) h _ = refl
letters_then_padding-encode [] (suc (suc (suc n))) h _ = absurd (omega arith)
letters_then_padding-encode (k ∷ ns) n h (hk, hs) =
    let (is, _, _) = letter_laws k hk in rw (is, letters_then_padding-encode ns n h hs)

padding-lt : (bs : List ℕ) → padding bs < 3
unfolding padding
padding-lt [] = omega arith
padding-lt (a ∷ []) = omega arith
padding-lt (a ∷ b ∷ []) = omega arith
padding-lt (a ∷ b ∷ c ∷ rest) = padding-lt rest

is_base64-letters :
    (ns : List ℕ) (n : ℕ)
    → n < 3
    → ns ≢ []
    → All (λ k. k < 64) ns
    → is_base64 (map letter ns ++ replicate n b'=') ≡ true
unfolding is_base64
is_base64-letters [] n h ne _ = absurd (ne refl)
is_base64-letters (k ∷ ns) n h ne (hk, hs) =
    let (is, _, _) = letter_laws k hk in rw (is, letters_then_padding-encode ns n h hs)

sextets-ne-nil : (bs : List ℕ) → bs ≢ [] → sextets bs ≢ []
unfolding sextets
sextets-ne-nil [] ne e = ne refl
sextets-ne-nil (a ∷ []) ne e = cc
sextets-ne-nil (a ∷ b ∷ []) ne e = cc
sextets-ne-nil (a ∷ b ∷ c ∷ rest) ne e = cc

is_base64-encode : (bs : List ℕ) → All IsByte bs → bs ≢ [] → is_base64 (encode bs) ≡ true
unfolding encode
is_base64-encode bs h ne =
    is_base64-letters (sextets bs) (padding bs) (padding-lt bs) (sextets-ne-nil bs ne)
      (sextets-below bs h)

-- Padding a base64 text once more changes nothing of what it decodes to.
decode-padded : (bs : List ℕ) → All IsByte bs → decode (padded (encode bs)) ≡ bs
unfolding encode
decode-padded bs h =
    ap decode (
      append_assoc (map letter (sextets bs)) _ _
      ∙ ap (λ t. map letter (sextets bs) ++ t) (replicate-append (padding bs) _ b'='))
    ∙ decode-encode bs _ h

key_of_normalized-encode :
    (key : List ℕ) → All IsByte key → key ≢ [] → key_of_normalized (encode key) ≡ ok key
unfolding key_of_normalized
key_of_normalized-encode [] h ne = absurd (ne refl)
key_of_normalized-encode (b ∷ bs) h ne =
    rw (is_base64-encode (b ∷ bs) h ne, decode-padded (b ∷ bs) h, str_eq_refl) (ground arith)

-- A secret made of the prefix and the base64 of a key that is not empty is accepted, and gives back
-- the key's bytes.
pub webhook_secret_key-encode :
    (key : List ℕ)
    → All IsByte key
    → key ≢ []
    → webhook_secret_key (lit "whsec_" ++ encode key) ≡ ok key
unfolding webhook_secret_key
webhook_secret_key-encode key h ne =
    rw
      (
        starts_with-append (lit "whsec_") (encode key),
        trim-NotSpace (encode key) (encode-NotSpace key h),
      )
      (key_of_normalized-encode key h ne)
