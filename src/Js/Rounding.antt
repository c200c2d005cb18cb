-- ===== src/Js/Rounding.antt =====
-- `Number(z)` for a `bigint` z below 2 ^ 64: the double nearest to it.
use zamapay.Prelude.{
  ℕ, zero, suc, ◌+◌, ◌*◌, ◌/◌, ◌%◌, ◌<◌, ◌≡◌, refl, ap, ◌∙◌, true, arith, ltb, ◌==◌, if◌then◌else◌,
}

-- The distance of the doubles around a number: the least power of two for which fewer than 2 ^ 53 of
-- its multiples lie below the number, by the halvings allowed.
unfoldable pub spacing : ℕ → ℕ → ℕ
spacing zero n = 1
spacing (suc halvings) n =
    let rest = spacing halvings (n / 2) in if ltb n 9007199254740992 then 1 else 2 * rest

-- The nearest multiple, an even one at equal distances.
abbrev nearest : ℕ → ℕ → ℕ
nearest unit n =
    let below = n / unit in
    let over = n % unit in
    if ltb (2 * over) unit
    then below * unit
    else if ltb unit (2 * over)
    then (below + 1) * unit
    else if below % 2 == 0
    then below * unit
    else (below + 1) * unit

-- Eleven halvings bring a number below 2 ^ 64 below 2 ^ 53.
unfoldable pub number_of_bigint : ℕ → ℕ
unfolding spacing
number_of_bigint n = nearest (spacing 11 n) n

is_small : (n : ℕ) → n < 9007199254740992 → ltb n 9007199254740992 ≡ true
is_small n h = ground arith

nearest-one : (n : ℕ) → nearest 1 n ≡ n
nearest-one n =
    let whole : n / 1 ≡ n = omega arith in
    let exact : n % 1 ≡ 0 = omega arith in rw (exact, whole, nearest) (omega arith)

spacing-one : (n : ℕ) → n < 9007199254740992 → spacing 11 n ≡ 1
unfolding spacing
spacing-one n h = rw (is_small n h) refl

-- A number below 2 ^ 53 is kept.
number_of_bigint-exact : (n : ℕ) → n < 9007199254740992 → number_of_bigint n ≡ n
unfolding number_of_bigint
number_of_bigint-exact n h = ap (λ unit. nearest unit n) (spacing-one n h) ∙ nearest-one n
