-- ===== src/Js/Numeric.antt =====
-- JavaScript numbers: integers, other finite doubles as dyadic fractions, the infinities and NaN.
-- Minus zero counts as zero, and products are exact.
use zamapay.Prelude.{
  ℕ, suc, ◌+◌, ◌-◌, ◌*◌, ◌/◌, ◌^◌, ◌≤◌, Bool, true, false, leb, ◌==◌, ◌≡◌, ◌↔◌, arith,
  if◌then◌else◌,
}

-- `negsuc n` is -(n + 1).
pub data ℤ : Type 0 where
  pos : ℕ → ℤ
  negsuc : ℕ → ℤ

abbrev pub pos_part : ℤ → ℕ
pos_part (pos n) = n
pos_part (negsuc n) = 0

abbrev pub neg_part : ℤ → ℕ
neg_part (pos n) = 0
neg_part (negsuc n) = suc n

-- a - b, as an integer.
abbrev pub sub_ℕ : ℕ → ℕ → ℤ
sub_ℕ a b = if leb b a then pos (a - b) else negsuc (b - a - 1)

-- `dyadic minus m k` is m / 2 ^ k, negated if `minus`; it stands for what is finite and no integer.
pub data Number : Type 0 where
  int : ℤ → Number
  dyadic : Bool → ℕ → ℕ → Number
  infinite : Bool → Number
  nan : Number

abbrev pub max_safe_integer : ℕ
max_safe_integer = 2 ^ 53 - 1

-- `Number.isInteger(n)`
abbrev pub is_integer : Number → Bool
is_integer (int _) = true
is_integer _ = false

-- `Number.isSafeInteger(n)`
abbrev pub is_safe_integer : Number → Bool
is_safe_integer (int (pos n)) = leb n max_safe_integer
is_safe_integer (int (negsuc n)) = leb (suc n) max_safe_integer
is_safe_integer _ = false

-- `Number.isFinite(n)`
abbrev pub is_finite : Number → Bool
is_finite (int _) = true
is_finite (dyadic _ _ _) = true
is_finite _ = false

-- `n < 0`
abbrev pub is_negative : Number → Bool
is_negative (int (pos _)) = false
is_negative (int (negsuc _)) = true
is_negative (dyadic minus _ _) = minus
is_negative (infinite minus) = minus
is_negative nan = false

-- `n <= 0`
abbrev pub is_at_most_zero : Number → Bool
is_at_most_zero (int (pos n)) = n == 0
is_at_most_zero n = is_negative n

-- `n === 0 || Number.isNaN(n)`
abbrev pub is_zero_or_nan : Number → Bool
is_zero_or_nan (int (pos n)) = n == 0
is_zero_or_nan nan = true
is_zero_or_nan _ = false

-- `n * 1_000` for a finite `n`
abbrev pub times_thousand : Number → Number
times_thousand (int (pos n)) = int (pos (1000 * n))
times_thousand (int (negsuc n)) = int (negsuc (1000 * n + 999))
times_thousand (dyadic minus m k) = dyadic minus (1000 * m) k
times_thousand n = n

-- `Math.max(0, Math.min(n, top))`
abbrev pub clamp_to : ℕ → Number → Number
clamp_to top (int (pos n)) = int (pos (if leb n top then n else top))
clamp_to top (int (negsuc n)) = int (pos 0)
clamp_to top (dyadic true m k) = int (pos 0)
clamp_to top (dyadic false m k) = if leb m (top * 2 ^ k) then dyadic false m k else int (pos top)
clamp_to top (infinite true) = int (pos 0)
clamp_to top (infinite false) = int (pos top)
clamp_to top nan = nan

-- `Math.trunc(n)` as a big integer, for a finite `n`
abbrev pub truncate : Number → ℤ
truncate (int z) = z
truncate (dyadic minus m k) = if minus then sub_ℕ 0 (m / 2 ^ k) else pos (m / 2 ^ k)
truncate _ = pos 0

-- 0 <= n <= top
abbrev pub IsWithin : ℕ → Number → Type 0
IsWithin top (int (pos n)) = n ≤ top
IsWithin top (dyadic false m k) = m ≤ top * 2 ^ k
IsWithin top _ = ⊥

-- `a === b` for big integers
abbrev pub int_eq : ℤ → ℤ → Bool
int_eq (pos a) (pos b) = a == b
int_eq (negsuc a) (negsuc b) = a == b
int_eq _ _ = false

pub int_eq_iff : (a b : ℤ) → (int_eq a b ≡ true) ↔ (a ≡ b)
int_eq_iff (pos a) (pos b) = ground arith
int_eq_iff (pos a) (negsuc b) = ground arith
int_eq_iff (negsuc a) (pos b) = ground arith
int_eq_iff (negsuc a) (negsuc b) = ground arith
