-- ===== src/Js/Base64.antt =====
-- Base64 of Node's `Buffer`, on bytes below 256 and on texts whose letters stand before any `=`.
use zamapay.Prelude.{
  ℕ, zero, suc, ◌+◌, ◌-◌, ◌*◌, ◌/◌, ◌%◌, ◌<◌, ◌≡◌, ◌≢◌, refl, Bool, true, ◌&&◌, ◌||◌, List, [], ◌∷◌,
  ◌++◌, map, arith, ltb, leb, ◌==◌, if◌then◌else◌, All, replicate,
}
use zamapay.Prelude.Text.{Text, is_digit}

-- The letter of a number below 64, and the other way round.
unfoldable pub letter : ℕ → ℕ
letter n =
    if ltb n 26
    then n + b'A'
    else if ltb n 52
    then n - 26 + b'a'
    else if ltb n 62
    then n - 52 + b'0'
    else if n == 62
    then b'+'
    else b'/'

unfoldable pub sextet : ℕ → ℕ
sextet c =
    if leb b'A' c && leb c b'Z'
    then c - b'A'
    else if leb b'a' c && leb c b'z'
    then c - b'a' + 26
    else if is_digit c
    then c - b'0' + 52
    else if c == b'+'
    then 62
    else 63

-- `[A-Za-z0-9+/]`
unfoldable pub is_letter : ℕ → Bool
is_letter c =
    leb b'A' c && leb c b'Z' || leb b'a' c && leb c b'z' || is_digit c || c == b'+' || c == b'/'

unfoldable pub sextets : List ℕ → List ℕ
sextets [] = []
sextets (a ∷ []) = a / 4 ∷ (a % 4 * 16) ∷ []
sextets (a ∷ b ∷ []) = a / 4 ∷ (a % 4 * 16 + b / 16) ∷ (b % 16 * 4) ∷ []
sextets (a ∷ b ∷ c ∷ rest) =
    a / 4 ∷ (a % 4 * 16 + b / 16) ∷ (b % 16 * 4 + c / 64) ∷ c % 64 ∷ sextets rest

unfoldable pub padding : List ℕ → ℕ
padding [] = 0
padding (a ∷ []) = 2
padding (a ∷ b ∷ []) = 1
padding (a ∷ b ∷ c ∷ rest) = padding rest

-- `buffer.toString("base64")`
unfoldable pub encode : List ℕ → Text
unfolding letter sextets padding
encode bytes = map letter (sextets bytes) ++ replicate (padding bytes) b'='

-- One number left over is not a byte.
unfoldable pub bytes_of : List ℕ → List ℕ
bytes_of (p ∷ q ∷ r ∷ s ∷ rest) =
    (p * 4 + q / 16) ∷ (q % 16 * 16 + r / 4) ∷ (r % 4 * 64 + s) ∷ bytes_of rest
bytes_of (p ∷ q ∷ r ∷ []) = (p * 4 + q / 16) ∷ (q % 16 * 16 + r / 4) ∷ []
bytes_of (p ∷ q ∷ []) = (p * 4 + q / 16) ∷ []
bytes_of _ = []

unfoldable pub letters : Text → List ℕ
unfolding is_letter sextet
letters [] = []
letters (c ∷ s) = if is_letter c then sextet c ∷ letters s else []

-- `Buffer.from(s, "base64")`
unfoldable pub decode : Text → List ℕ
unfolding bytes_of letters
decode s = bytes_of (letters s)

abbrev pub IsByte : ℕ → Type 0
IsByte b = b < 256

-- What is known of each letter that stands for a number below 64.
pub letter_laws :
    (n : ℕ) → n < 64 → (is_letter (letter n) ≡ true) × (sextet (letter n) ≡ n) × (letter n ≢ b'=')
unfolding letter sextet is_letter
letter_laws n h = ground arith

pub bytes_of-sextets : (bs : List ℕ) → All IsByte bs → bytes_of (sextets bs) ≡ bs
unfolding sextets bytes_of
bytes_of-sextets [] _ = refl
bytes_of-sextets (a ∷ []) h = ground arith
bytes_of-sextets (a ∷ b ∷ []) h = ground arith
bytes_of-sextets (a ∷ b ∷ c ∷ rest) (ha, (hb, (hc, h))) = ground (arith, bytes_of-sextets rest h)

pub sextets-below : (bs : List ℕ) → All IsByte bs → All (λ n. n < 64) (sextets bs)
unfolding sextets
sextets-below [] _ = tt
sextets-below (a ∷ []) h = omega arith
sextets-below (a ∷ b ∷ []) h = omega arith
sextets-below (a ∷ b ∷ c ∷ rest) (ha, (hb, (hc, h))) =
    (omega arith, (omega arith, (omega arith, (omega arith, sextets-below rest h))))

letters-pad : (n : ℕ) → letters (replicate n b'=') ≡ []
unfolding letters
letters-pad zero = refl
letters-pad (suc n) = refl

pub letters-encode :
    (ns : List ℕ) (n : ℕ) → All (λ k. k < 64) ns → letters (map letter ns ++ replicate n b'=') ≡ ns
unfolding letters
letters-encode [] n _ = letters-pad n
letters-encode (k ∷ ns) n (hk, h) =
    let (is, back, _) = letter_laws k hk in rw (is, back, letters-encode ns n h)

-- Decoding gives back the bytes, also where more padding follows.
pub decode-encode :
    (bs : List ℕ) (n : ℕ)
    → All IsByte bs
    → decode (map letter (sextets bs) ++ replicate n b'=') ≡ bs
decode-encode bs n h =
    unfold decode in rw (letters-encode (sextets bs) n (sextets-below bs h)) (bytes_of-sextets bs h)
