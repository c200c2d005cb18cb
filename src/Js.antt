-- ===== src/Js.antt =====
-- The JavaScript values that the program's TypeScript calls `unknown`, and their numbers.
pub mod Numeric
pub mod Base64
pub mod Rounding
pub use Numeric.*
use zamapay.Prelude.{ℕ, zero, suc, Bool, true, false, Option, none, some, not, if◌then◌else◌}
use zamapay.Prelude.Text.{Text, str_eq, nonempty}

mutual
  pub data Value : Type 0 where
    undefined : Value
    null : Value
    boolean : Bool → Value
    number : Number → Value
    bigint : ℤ → Value
    string : Text → Value
    array : Values → Value
    object : Members → Value

  pub data Values : Type 0 where
    nil : Values
    cons : Value → Values → Values

  -- The own enumerable properties of an object, in order.
  pub data Members : Type 0 where
    end : Members
    property : Text → Value → Members → Members

-- `Boolean(v)`
abbrev pub truthy : Value → Bool
truthy undefined = false
truthy null = false
truthy (boolean b) = b
truthy (number n) = not (is_zero_or_nan n)
truthy (bigint (pos zero)) = false
truthy (bigint _) = true
truthy (string s) = nonempty s
truthy (array _) = true
truthy (object _) = true

unfoldable pub find_member : Text → Members → Option Value
find_member k end = none
find_member k (property j v ms) = if str_eq j k then some v else find_member k ms

-- `v?.k`, and `v.k` where `v` is neither null nor undefined
unfoldable pub member : Value → Text → Value
unfolding find_member
member (object ms) k = elim (find_member k ms) [ none ↦ undefined | some v ↦ v ]
member _ k = undefined

-- `v === null || v === undefined`
abbrev pub is_nullish : Value → Bool
is_nullish undefined = true
is_nullish null = true
is_nullish _ = false

-- `v !== null && typeof v === "object"`
abbrev pub is_object : Value → Bool
is_object (array _) = true
is_object (object _) = true
is_object _ = false

-- `typeof v === "string" ? v : undefined`
abbrev pub as_text : Value → Option Text
as_text (string s) = some s
as_text _ = none
