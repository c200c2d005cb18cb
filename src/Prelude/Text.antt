-- ===== src/Prelude/Text.antt =====
-- JavaScript strings as lists of UTF-16 code units, with the string methods that the program calls.
-- Letters change case within ASCII.
pub mod Laws
use Prim.Native.Nat.{ℕ, ◌+◌, ◌-◌}
use Prim.Native.Char.{code}
use Prim.Native.String.{String}
use mathlib.Core.Path.{◌≡◌, refl}
use mathlib.Core.Logic.{◌↔◌}
use mathlib.Core.Bool.{Bool, true, false, not, ◌&&◌, ◌||◌}
use mathlib.Core.List.{List, [], ◌∷◌, ◌++◌, map, reverse}
use native.Mathlib.Omega.{arith}
use zamapay.Prelude.Tests.{leb, ◌==◌, if◌then◌else◌}
use zamapay.Prelude.Lists.{length, replicate, all}

abbrev pub Text : Type 0
Text = List ℕ

-- A text literal. `String` has its own `[]` and `∷`.
abbrev pub lit : String → Text
lit String.[] = []
lit (String.◌∷◌ c s) = code c ∷ lit s

-- `a === b`
unfoldable pub str_eq : Text → Text → Bool
str_eq [] [] = true
str_eq (a ∷ s) (b ∷ t) = (a == b) && str_eq s t
str_eq _ _ = false

pub str_eq_iff : (s t : Text) → (str_eq s t ≡ true) ↔ (s ≡ t)
unfolding str_eq
str_eq_iff [] [] = ground arith
str_eq_iff [] (b ∷ t) = ground arith
str_eq_iff (a ∷ s) [] = ground arith
str_eq_iff (a ∷ s) (b ∷ t) = ground (arith, str_eq_iff s t)

pub str_eq_refl : (s : Text) → str_eq s s ≡ true
str_eq_refl s = (str_eq_iff s s).1 refl

-- `Boolean(s)`
abbrev pub nonempty : Text → Bool
nonempty [] = false
nonempty (_ ∷ _) = true

-- White space and line terminators of ECMAScript.
unfoldable pub is_space : ℕ → Bool
is_space c =
    leb 9 c && leb c 13
    || c == 32
    || c == 160
    || c == 5760
    || leb 8192 c && leb c 8202
    || c == 8232
    || c == 8233
    || c == 8239
    || c == 8287
    || c == 12288
    || c == 65279

unfoldable pub trim_start : Text → Text
unfolding is_space
trim_start [] = []
trim_start (c ∷ s) = if is_space c then trim_start s else c ∷ s

-- `s.trim()`
unfoldable pub trim : Text → Text
unfolding trim_start
trim s = reverse (trim_start (reverse (trim_start s)))

abbrev pub lower_unit : ℕ → ℕ
lower_unit c = if leb b'A' c && leb c b'Z' then c + 32 else c

abbrev pub upper_unit : ℕ → ℕ
upper_unit c = if leb b'a' c && leb c b'z' then c - 32 else c

-- `s.toLowerCase()`
unfoldable pub to_lower : Text → Text
to_lower = map lower_unit

-- `s.toUpperCase()`
unfoldable pub to_upper : Text → Text
to_upper = map upper_unit

-- `s.startsWith(p)`
unfoldable pub starts_with : Text → Text → Bool
starts_with s [] = true
starts_with [] (p ∷ ps) = false
starts_with (c ∷ s) (p ∷ ps) = (c == p) && starts_with s ps

-- `s.includes(p)`
unfoldable pub includes : Text → Text → Bool
unfolding starts_with
includes [] p = starts_with [] p
includes (c ∷ s) p = starts_with (c ∷ s) p || includes s p

abbrev pub is_digit : ℕ → Bool
is_digit c = leb b'0' c && leb c b'9'

-- `/^\d+$/.test(s)`
unfoldable pub all_digits : Text → Bool
all_digits s = nonempty s && all is_digit s

-- `s.padStart(n, c)`, `s.padEnd(n, c)` with a one-unit filler
abbrev pub pad_start : ℕ → ℕ → Text → Text
pad_start n c s = replicate (n - length s) c ++ s

abbrev pub pad_end : ℕ → ℕ → Text → Text
pad_end n c s = s ++ replicate (n - length s) c

-- `s.replace(/c+$/, "")`
unfoldable pub drop_trailing : ℕ → Text → Text
drop_trailing c [] = []
drop_trailing c (d ∷ s) =
    let rest = drop_trailing c s in if (d == c) && not (nonempty rest) then [] else d ∷ rest
