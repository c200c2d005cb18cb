-- ===== src/Prelude/Decimal.antt =====
-- Decimal numerals: `String(n)` and `Number(s)` or `BigInt(s)` on a run of digits.
use Prim.Native.Nat.{ℕ, zero, suc, ◌+◌, ◌-◌, ◌*◌, ◌/◌, ◌%◌, ◌<◌}
use mathlib.Core.Path.{◌≡◌, refl}
use mathlib.Core.Bool.{true}
use mathlib.Core.List.{[], ◌∷◌}
use native.Mathlib.Omega.{arith}
use zamapay.Prelude.Tests.{ltb, if◌then◌else◌}
use zamapay.Prelude.Lists.{all}
use zamapay.Prelude.Text.{Text, is_digit, all_digits}

-- The digits of `n` before `acc`; the fuel is above `n`.
unfoldable pub digits_from : ℕ → ℕ → Text → Text
digits_from zero n acc = acc
digits_from (suc f) n acc =
    let rest = digits_from f (n / 10) ((n % 10 + b'0') ∷ acc) in
    if ltb n 10 then (n + b'0') ∷ acc else rest

-- `String(n)`, `n.toString()`
unfoldable pub decimal : ℕ → Text
unfolding digits_from
decimal n = digits_from (suc n) n []

unfoldable pub value_from : ℕ → Text → ℕ
value_from acc [] = acc
value_from acc (c ∷ s) = value_from (acc * 10 + (c - b'0')) s

-- `Number(s)`, `BigInt(s)` where `s` is a run of digits
unfoldable pub value : Text → ℕ
unfolding value_from
value s = value_from 0 s

digits_from-all_digits :
    (f n : ℕ) (acc : Text)
    → n < f
    → all is_digit acc ≡ true
    → all_digits (digits_from f n acc) ≡ true
unfolding digits_from all_digits
digits_from-all_digits zero n acc h d = elim h [ ]
digits_from-all_digits (suc f) n acc h d =
    ground (arith, digits_from-all_digits f (n / 10) ((n % 10 + b'0') ∷ acc))

pub decimal-all_digits : (n : ℕ) → all_digits (decimal n) ≡ true
unfolding decimal
decimal-all_digits n = digits_from-all_digits (suc n) n [] (omega arith) refl

-- Reading back the digits of `n` from any accumulator `k` shifts `k` and adds `n`.
value_from-digits_from :
    (f n : ℕ) (acc : Text) → n < f → value_from 0 (digits_from f n acc) ≡ value_from n acc
unfolding digits_from value_from
value_from-digits_from zero n acc h = elim h [ ]
value_from-digits_from (suc f) n acc h =
    ground (arith, value_from-digits_from f (n / 10) ((n % 10 + b'0') ∷ acc))

pub value-decimal : (n : ℕ) → value (decimal n) ≡ n
unfolding value decimal
value-decimal n = unfold value_from in value_from-digits_from (suc n) n [] (omega arith)
