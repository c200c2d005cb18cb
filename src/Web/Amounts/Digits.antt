-- ===== src/Web/Amounts/Digits.antt =====
-- `fractionalDigits` of apps/web/lib/amount-format.ts.
pub mod Laws
use zamapay.Prelude.{
  ℕ, Bool, ◌&&◌, not, [], ◌∷◌, ◌==◌, ltb, any, all, drop, length, take, if◌then◌else◌,
}
use zamapay.Prelude.Text.{Text, pad_end, pad_start}
use zamapay.Prelude.Decimal.{decimal}
use mathlib.Core.List.{reverse}

pub record VisibleFraction : Type 0 where
  pub less_than_visible_unit : Bool
  pub text : Text

-- The `while` loop on the reversed text, whose head is what the loop drops.
unfoldable pub trim_reversed : ℕ → Text → Text
trim_reversed minimum [] = []
trim_reversed minimum (c ∷ s) =
    let rest = trim_reversed minimum s in
    if ltb minimum (length (c ∷ s)) && (c == b'0') then rest else c ∷ s

abbrev pub is_zero_digit : ℕ → Bool
is_zero_digit c = c == b'0'

-- The text of the fraction, from its digits.
unfoldable pub visible_text : Text → ℕ → ℕ → Text
unfolding trim_reversed
visible_text raw maximum minimum =
    pad_end minimum b'0' (reverse (trim_reversed minimum (reverse (take maximum raw))))

-- A digit hidden behind `maximum` that is not `0`.
abbrev pub has_hidden_dust : Text → ℕ → Bool
has_hidden_dust raw maximum = any (λ c. not (is_zero_digit c)) (drop maximum raw)

unfoldable pub fractional_digits : ℕ → ℕ → ℕ → ℕ → VisibleFraction
unfolding decimal visible_text
fractional_digits decimals fraction maximum minimum =
    let raw = pad_start decimals b'0' (decimal fraction) in
    record {
      less_than_visible_unit = has_hidden_dust raw maximum && all is_zero_digit (take maximum raw);
      text = visible_text raw maximum minimum;
    }
