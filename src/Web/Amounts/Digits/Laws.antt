-- ===== src/Web/Amounts/Digits/Laws.antt =====
-- The digits shown of a fraction.
use zamapay.Prelude.{
  length-take, ℕ, zero, suc, ◌+◌, ◌-◌, ◌*◌, ◌^◌, ◌≤◌, ◌≡◌, refl, sym, ap, ◌∙◌, false, [], ◌∷◌, ◌++◌,
  arith, append_assoc, append-nil, length, length-append, length-replicate, take, replicate, ltb,
  ◌==◌, ◌&&◌, Bool-cases, inl, inr,
}
use zamapay.Prelude.Text.{Text, pad_start, pad_end}
use zamapay.Prelude.Decimal.{decimal, value, value_from}
use mathlib.Core.List.{reverse, reverse-append, reverse-reverse, reverse-cons}
use zamapay.Web.Amounts.Digits.{trim_reversed, visible_text, has_hidden_dust}

abbrev zeros : ℕ → Text
zeros n = replicate n b'0'

zeros_more : (n : ℕ) (s : Text) → zeros n ++ b'0' ∷ s ≡ b'0' ∷ zeros n ++ s
zeros_more zero s = refl
zeros_more (suc n) s = ap (λ t. b'0' ∷ t) (zeros_more n s)

zeros-append : (m n : ℕ) → zeros m ++ zeros n ≡ zeros (m + n)
zeros-append zero n = ap zeros {y = 0 + n} (omega arith)
zeros-append (suc m) n =
    ap (λ t. b'0' ∷ t) (zeros-append m n) ∙ ap zeros {x = suc (m + n)} {y = suc m + n} (omega arith)

-- The loop drops a run of zeros and nothing else.
trim_reversed-zeros : (minimum : ℕ) (r : Text) → (j : ℕ) × (r ≡ zeros j ++ trim_reversed minimum r)
unfolding trim_reversed
trim_reversed-zeros minimum [] = (0, refl)
trim_reversed-zeros minimum (c ∷ s) =
    let (j, e) = trim_reversed-zeros minimum s in
    elim (Bool-cases (ltb minimum (length (c ∷ s)) && (c == b'0'))) [
      | inl t ↦
          let zero_digit : c ≡ b'0' = ground arith in
          (suc j, rw t (ap (λ d. d ∷ s) zero_digit ∙ ap (λ r. b'0' ∷ r) e))
      | inr f ↦ (0, rw f refl)
    ]

trim_reversed-length :
    (minimum : ℕ) (r : Text)
    → (length (trim_reversed minimum r) ≤ length r)
      × (minimum ≤ length r → minimum ≤ length (trim_reversed minimum r))
unfolding trim_reversed
trim_reversed-length minimum [] = (omega arith, λ h. h)
trim_reversed-length minimum (c ∷ s) = ground (arith, trim_reversed-length minimum s)

shift : (a p : ℕ) → (a * 10 + 0) * p ≡ a * (10 * p)
shift a p = grind arith

value_from-zeros :
    (acc n : ℕ) (s : Text) → value_from acc (s ++ zeros n) ≡ value_from acc s * 10 ^ n
unfolding value_from
value_from-zeros acc zero [] = omega arith
value_from-zeros acc (suc n) [] =
    value_from-zeros (acc * 10 + 0) n [] ∙ shift acc (10 ^ n) ∙ ap (λ p. acc * p) (ground arith)
value_from-zeros acc n (c ∷ s) = value_from-zeros (acc * 10 + (c - b'0')) n s

length-reversed : (s : Text) → length (reverse s) ≡ length s
length-reversed [] = refl
length-reversed (c ∷ s) =
    rw (reverse-cons, length-append)
      (omega (arith, length-reversed s, length-append (reverse s) (c ∷ [])))

length-pad_end : (n c : ℕ) (s : Text) → length (pad_end n c s) ≡ length s + (n - length s)
length-pad_end n c s =
    length-append s (replicate (n - length s) c)
    ∙ ap (λ m. length s + m) (length-replicate (n - length s) c)

-- A text of at least `minimum` units, and of at most `maximum`.
pub length-visible_text :
    (raw : Text) (maximum minimum : ℕ)
    → minimum ≤ maximum
    → (minimum ≤ length (visible_text raw maximum minimum))
      × (length (visible_text raw maximum minimum) ≤ maximum)
unfolding visible_text
length-visible_text raw maximum minimum h =
    let r = reverse (take maximum raw) in
    let t = trim_reversed minimum r in
    let total = length-pad_end minimum b'0' (reverse t) in
    let (short, _) = trim_reversed-length minimum r in
    let bound = length-take maximum raw in
    let same = length-reversed t in
    let same_take = length-reversed (take maximum raw) in (omega arith, omega arith)

reverse-zeros : (n : ℕ) → reverse (zeros n) ≡ zeros n
reverse-zeros zero = refl
reverse-zeros (suc n) =
    reverse-cons b'0' (zeros n)
    ∙ ap (λ s. s ++ b'0' ∷ []) (reverse-zeros n)
    ∙ zeros_more n []
    ∙ ap (λ s. b'0' ∷ s) (append-nil (zeros n))

zeros_comm : (m n : ℕ) → zeros m ++ zeros n ≡ zeros n ++ zeros m
zeros_comm m n =
    zeros-append m n ∙ ap zeros {x = m + n} {y = n + m} (omega arith) ∙ sym (zeros-append n m)

-- The runs of zeros after a text can be swapped.
zeros_swap : (s : Text) (m n : ℕ) → (s ++ zeros m) ++ zeros n ≡ (s ++ zeros n) ++ zeros m
zeros_swap s m n =
    append_assoc s (zeros m) (zeros n)
    ∙ ap (λ z. s ++ z) (zeros_comm m n)
    ∙ sym (append_assoc s (zeros n) (zeros m))

-- With `j` zeros after it the text shown is the first `maximum` digits with `k` zeros after them.
visible_text-zeros :
    (raw : Text) (maximum minimum : ℕ)
    → (j k : ℕ) × (visible_text raw maximum minimum ++ zeros j ≡ take maximum raw ++ zeros k)
unfolding visible_text
visible_text-zeros raw maximum minimum =
    let r = reverse (take maximum raw) in
    let t = trim_reversed minimum r in
    let (j, e) = trim_reversed-zeros minimum r in
    let k = minimum - length (reverse t) in
    let trimmed : reverse t ++ zeros j ≡ take maximum raw =
      ap (λ z. reverse t ++ z) (sym (reverse-zeros j))
      ∙ sym (reverse-append (zeros j) t)
      ∙ ap reverse (sym e)
      ∙ reverse-reverse (take maximum raw) in
    (j, k, zeros_swap (reverse t) k j ∙ ap (λ s. s ++ zeros k) trimmed)

-- What is hidden without dust is a run of zeros.
hidden-zeros :
    (raw : Text) (maximum : ℕ)
    → has_hidden_dust raw maximum ≡ false
    → (m : ℕ) × (raw ≡ take maximum raw ++ zeros m)
hidden-zeros [] zero h = (0, refl)
hidden-zeros [] (suc maximum) h = (0, refl)
hidden-zeros (c ∷ s) zero h =
    let (m, e) = hidden-zeros s zero (ground arith) in
    let zero_digit : c ≡ b'0' = ground arith in
    (suc m, ap (λ d. d ∷ s) zero_digit ∙ ap (λ t. b'0' ∷ t) e)
hidden-zeros (c ∷ s) (suc maximum) h =
    let (m, e) = hidden-zeros s maximum h in (m, ap (λ t. c ∷ t) e)

length-zeros : (s : Text) (n : ℕ) → length (s ++ zeros n) ≡ length s + n
length-zeros s n = length-append s (zeros n) ∙ ap (λ m. length s + m) (length-replicate n b'0')

-- The digits of the fraction, as many as there are decimals.
abbrev pub raw_digits : ℕ → ℕ → Text
raw_digits decimals fraction = pad_start decimals b'0' (decimal fraction)

-- Without hidden dust the text shown is the fraction exactly: value and digits agree up to the zeros
-- at the end.
pub visible_text-exact :
    (raw : Text) (maximum minimum : ℕ)
    → has_hidden_dust raw maximum ≡ false
    → (j k : ℕ) × (length (visible_text raw maximum minimum) + j ≡ length raw + k)
      × (value (visible_text raw maximum minimum) * 10 ^ j ≡ value raw * 10 ^ k)
unfolding value
visible_text-exact raw maximum minimum h =
    let shown = visible_text raw maximum minimum in
    let (j, k, e) = visible_text-zeros raw maximum minimum in
    let (m, hidden) = hidden-zeros raw maximum h in
    let same : shown ++ zeros (j + m) ≡ raw ++ zeros k =
      ap (λ z. shown ++ z) (sym (zeros-append j m))
      ∙ sym (append_assoc shown (zeros j) (zeros m))
      ∙ ap (λ s. s ++ zeros m) e
      ∙ zeros_swap (take maximum raw) k m
      ∙ ap (λ s. s ++ zeros k) (sym hidden) in
    (
      j + m,
      k,
      sym (length-zeros shown (j + m)) ∙ ap length same ∙ length-zeros raw k,
      sym (value_from-zeros 0 (j + m) shown) ∙ ap (value_from 0) same ∙ value_from-zeros 0 k raw,
    )
