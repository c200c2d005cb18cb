-- ===== src/Web/Amounts.antt =====
-- apps/web/lib/amount-format.ts: token units as text. Big integers are ℤ; the grouping of the whole
-- part by `toLocaleString` is a parameter.
pub mod Digits
pub mod Laws
use zamapay.Prelude.{
  ℕ, ◌-◌, ◌/◌, ◌%◌, ◌^◌, max, min, Bool, true, false, ◌&&◌, ◌||◌, not, Option, none, some, ◌++◌,
  List, [], ◌∷◌, ◌==◌, ◌or_use◌, leb, replicate, if◌then◌else◌,
}
use zamapay.Prelude.Text.{Text, lit, nonempty}
use zamapay.Js.{ℤ, pos, negsuc, Number, int, truncate, pos_part, neg_part}
use zamapay.Web.Amounts.Digits.{fractional_digits, VisibleFraction}

pub record FormatUnitsOptions : Type 0 where
  pub locale : Option Text
  pub maximum_fraction_digits : Option Number
  pub minimum_fraction_digits : Option Number

-- `AmountUnitValue`
pub data AmountUnitValue : Type 0 where
  big : ℤ → AmountUnitValue
  plain : Number → AmountUnitValue

abbrev pub default_decimals : ℕ
default_decimals = 6

abbrev pub max_decimals : ℕ
max_decimals = 18

abbrev pub default_max_fraction_digits : ℕ
default_max_fraction_digits = 6

abbrev pub default_min_fraction_digits : ℕ
default_min_fraction_digits = 2

unfoldable pub normalize_decimals : Number → ℕ
normalize_decimals (int (pos n)) = if leb n max_decimals then n else default_decimals
normalize_decimals _ = default_decimals

unfoldable pub clamp_fraction_digits : Number → ℕ
clamp_fraction_digits (int (pos n)) = min n default_max_fraction_digits
clamp_fraction_digits (int (negsuc n)) = 0
clamp_fraction_digits _ = default_min_fraction_digits

-- `Math.trunc` of what is not finite does not count here: `truncate` gives 0 for it, as the source does.
unfoldable pub to_integer_units : AmountUnitValue → ℤ
to_integer_units (big z) = z
to_integer_units (plain n) = truncate n

abbrev pub minimum_visible_fraction : ℕ → Text
minimum_visible_fraction maximum = replicate (maximum - 1) b'0' ++ lit "1"

abbrev pub minimum_of : FormatUnitsOptions → ℕ
minimum_of options =
    clamp_fraction_digits
      (options.minimum_fraction_digits or_use int (pos default_min_fraction_digits))

abbrev pub maximum_of : FormatUnitsOptions → ℕ
maximum_of options = max (minimum_of options) (
    clamp_fraction_digits
      (options.maximum_fraction_digits or_use int (pos default_max_fraction_digits)))

abbrev pub sign_of : ℤ → Text
sign_of (pos n) = []
sign_of (negsuc n) = lit "-"

abbrev pub magnitude : ℤ → ℕ
magnitude (pos n) = n
magnitude (negsuc n) = neg_part (negsuc n)

module _ (to_locale_string : ℕ → Option Text → Text) where
  -- The text for the sign, the magnitude and the numbers of digits.
  unfoldable pub format_digits : Option Text → Text → ℕ → ℕ → ℕ → ℕ → Text
  format_digits locale sign absolute decimals minimum maximum =
      let scale = 10 ^ decimals in
      let whole = absolute / scale in
      let fraction = fractional_digits decimals (absolute % scale) maximum minimum in
      if (decimals == 0) || (maximum == 0)
      then sign ++ to_locale_string whole locale
      else if (whole == 0) && fraction.less_than_visible_unit
      then sign ++ lit "<0." ++ minimum_visible_fraction maximum
      else sign ++ to_locale_string whole locale ++ lit "." ++ fraction.text

  unfoldable pub format_units : AmountUnitValue → Number → FormatUnitsOptions → Text
  unfolding normalize_decimals clamp_fraction_digits to_integer_units format_digits
  format_units value decimals options =
      let units = to_integer_units value in
      format_digits options.locale (sign_of units) (magnitude units) (normalize_decimals decimals)
        (minimum_of options) (maximum_of options)

  unfoldable pub format_token_units :
      AmountUnitValue → Number → FormatUnitsOptions → Option Text → Text
  unfolding format_units
  format_token_units value decimals options symbol =
      let amount = format_units value decimals options in
      if nonempty (symbol or_use []) then amount ++ lit " " ++ (symbol or_use []) else amount

  unfoldable pub format_minor_token_units :
      AmountUnitValue → FormatUnitsOptions → Option Text → Text
  unfolding format_token_units
  format_minor_token_units value options symbol =
      format_token_units value (int (pos default_decimals)) options
        (some (symbol or_use lit "cUSDT"))
