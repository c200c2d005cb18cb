-- ===== src/Web/Amounts/Laws.antt =====
-- What the amounts shown say of the amounts.
use zamapay.Prelude.{
  ℕ, zero, suc, ◌+◌, ◌-◌, ◌*◌, ◌^◌, ◌/◌, ◌%◌, ◌≤◌, ◌<◌, max, ◌≡◌, refl, ap, ◌∙◌, false, [], ◌∷◌,
  ◌++◌, arith, Option, length, length-append, length-replicate, drop, replicate,
}
use native.Mathlib.Nat.{mod-lt}
use zamapay.Prelude.Text.{Text, lit}
use zamapay.Prelude.Decimal.{decimal, digits_from, value, value_from, value-decimal}
use zamapay.Web.Amounts.Digits.{fractional_digits, has_hidden_dust}
use zamapay.Web.Amounts.Digits.Laws.{raw_digits, visible_text-exact, length-visible_text}
use zamapay.Web.Amounts.{format_digits}

pow_suc : (d : ℕ) → 10 ^ suc d ≡ 10 * 10 ^ d
pow_suc d = ground arith

pow_positive : (d : ℕ) → 0 < 10 ^ d
pow_positive zero = ground arith
pow_positive (suc d) = omega (arith, pow_suc d, pow_positive d)

length-digits_from :
    (f n d : ℕ) (acc : Text)
    → n < f
    → n < 10 ^ d
    → length (digits_from f n acc) ≤ max 1 d + length acc
unfolding digits_from
length-digits_from zero n d acc h b = elim h [ ]
length-digits_from (suc f) n zero acc h b = ground arith
length-digits_from (suc f) n (suc zero) acc h b = ground arith
length-digits_from (suc f) n (suc (suc d)) acc h b =
    ground (arith, pow_suc (suc d), length-digits_from f (n / 10) (suc d) ((n % 10 + b'0') ∷ acc))

value-zeros : (n : ℕ) (s : Text) → value_from 0 (replicate n b'0' ++ s) ≡ value_from 0 s
unfolding value_from
value-zeros zero s = refl
value-zeros (suc n) s = value-zeros n s

value-raw_digits : (decimals fraction : ℕ) → value (raw_digits decimals fraction) ≡ fraction
unfolding value
value-raw_digits decimals fraction =
    value-zeros (decimals - length (decimal fraction)) (decimal fraction) ∙ value-decimal fraction

length-raw_digits :
    (decimals fraction : ℕ)
    → 0 < decimals
    → fraction < 10 ^ decimals
    → length (raw_digits decimals fraction) ≡ decimals
unfolding decimal
length-raw_digits decimals fraction p b =
    let pad : Text = replicate (decimals - length (decimal fraction)) b'0' in
    let total : length (pad ++ decimal fraction) ≡ length pad + length (decimal fraction) =
      length-append pad (decimal fraction) in
    let padding : length pad ≡ decimals - length (decimal fraction) =
      length-replicate (decimals - length (decimal fraction)) b'0' in
    let bound : length (decimal fraction) ≤ max 1 decimals + 0 =
      length-digits_from (suc fraction) fraction decimals [] (omega arith) b in
    let few : length (decimal fraction) ≤ decimals = omega arith in
    total ∙ ap (λ m. m + length (decimal fraction)) padding ∙ omega (arith, few)

drop-all : (n : ℕ) (s : Text) → length s ≤ n → drop n s ≡ []
drop-all zero [] h = refl
drop-all zero (c ∷ s) h = ground arith
drop-all (suc n) [] h = refl
drop-all (suc n) (c ∷ s) h = drop-all n s (omega arith)

no_dust : (raw : Text) (maximum : ℕ) → length raw ≤ maximum → has_hidden_dust raw maximum ≡ false
no_dust raw maximum h = rw (drop-all maximum raw h) refl

-- The digits shown are at least `minimum` and at most `maximum`, for every fraction.
pub fractional_digits-length :
    (decimals fraction maximum minimum : ℕ)
    → minimum ≤ maximum
    → (minimum ≤ length (fractional_digits decimals fraction maximum minimum).text)
      × (length (fractional_digits decimals fraction maximum minimum).text ≤ maximum)
unfolding fractional_digits
fractional_digits-length decimals fraction maximum minimum h =
    length-visible_text (raw_digits decimals fraction) maximum minimum h

-- Digits after the point that stand for the fraction of `decimals` digits exactly.
abbrev pub IsFraction : ℕ → ℕ → Text → Type 0
IsFraction decimals fraction shown =
    (j k : ℕ) × (length shown + j ≡ decimals + k) × (value shown * 10 ^ j ≡ fraction * 10 ^ k)

fractional_digits-exact :
    (decimals fraction maximum minimum : ℕ)
    → 0 < decimals
    → fraction < 10 ^ decimals
    → decimals ≤ maximum
    → ((fractional_digits decimals fraction maximum minimum).less_than_visible_unit ≡ false)
      × IsFraction decimals fraction (fractional_digits decimals fraction maximum minimum).text
unfolding fractional_digits
fractional_digits-exact decimals fraction maximum minimum p b m =
    let all_digits_there = length-raw_digits decimals fraction p b in
    let clear : has_hidden_dust (raw_digits decimals fraction) maximum ≡ false =
      no_dust (raw_digits decimals fraction) maximum (omega arith) in
    let (j, k, digits, amount) =
      visible_text-exact (raw_digits decimals fraction) maximum minimum clear in
    (
      ground arith,
      (
        j,
        k,
        digits ∙ ap (λ n. n + k) all_digits_there,
        amount ∙ ap (λ n. n * 10 ^ k) (value-raw_digits decimals fraction),
      ),
    )

module _ (to_locale_string : ℕ → Option Text → Text) where
  -- For a token of at least one decimal, and with at least as many digits to show as it has decimals,
  -- the text is the amount exactly: the sign, the whole part as the locale writes it, a point, and
  -- digits that stand for the rest.
  pub format_digits-exact :
      (locale : Option Text) (sign : Text) (absolute decimals minimum maximum : ℕ)
      → 0 < decimals
      → decimals ≤ maximum
      → (shown : Text) × (format_digits to_locale_string locale sign absolute decimals minimum
            maximum
          ≡ sign ++ to_locale_string (absolute / 10 ^ decimals) locale ++ lit "." ++ shown)
        × IsFraction decimals (absolute % 10 ^ decimals) shown
  unfolding format_digits
  format_digits-exact locale sign absolute decimals minimum maximum p m =
      let rest = absolute % 10 ^ decimals in
      let (clear, exact) =
        fractional_digits-exact decimals rest maximum minimum p
          (mod-lt absolute (pow_positive decimals)) m in
      ((fractional_digits decimals rest maximum minimum).text, ground (arith, clear), exact)
