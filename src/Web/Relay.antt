-- ===== src/Web/Relay.antt =====
-- apps/web/app/api/checkout/[checkoutId]/evm-relay/route.ts: the relayer of gasless EVM payments. Here
-- the types and the checks of single fields.
pub mod Payments
pub mod Server
pub mod Post
pub mod Laws
use zamapay.Prelude.{
  ℕ, Bool, true, false, ◌&&◌, ◌||◌, Option, ◌++◌, ◌==◌, drop, length, all, leb, if◌then◌else◌,
}
use zamapay.Prelude.Text.{Text, lit, nonempty, str_eq, starts_with, all_digits, is_digit}
use zamapay.Prelude.Decimal.{value}
use zamapay.Js.{
  Value, number, bigint, string, array, object, member, is_nullish, ℤ, pos, int, is_safe_integer,
  int_eq, Number,
}
use zamapay.Web.Errors.{Attempt, ok, fail, ensure, error, ◌>>=◌}

pub data RelayMethod : Type 0 where
  eip3009 permit2 : RelayMethod

pub record SettlementParams : Type 0 where
  pub intent_id : Text
  pub project_id : Text
  pub token : Text
  pub gross_amount : ℤ
  pub merchant_net_amount : ℤ
  pub platform_fee_amount : ℤ
  pub expires_at : ℤ

-- What `hexToSignature` of viem gives.
pub record SplitSignature : Type 0 where
  pub r : Text
  pub s : Text
  pub v : ℕ

pub record Authorization : Type 0 where
  pub nonce : Text
  pub payer : Text
  pub split : SplitSignature
  pub valid_after : ℤ
  pub valid_before : ℤ

pub record Permit2Payment : Type 0 where
  pub payer : Text
  pub deadline : ℤ
  pub nonce : ℤ
  pub permitted_amount : ℤ
  pub permitted_token : Text
  pub permit2_contract : Text
  pub signature : Text
  pub witness : Text
  pub witness_type_string : Text

-- The functions of the settlement contract with their arguments.
pub data SettlementCall : Type 0 where
  pay_with_authorization : SettlementParams → Authorization → SettlementCall
  pay_with_permit2 : SettlementParams → Permit2Payment → SettlementCall

-- `EvmFundingAction`, as far as the funding code reads it; `authorization` is its typed data with its
-- settlement arguments.
pub record FundingAction : Type 0 where
  pub method : Text
  pub rank : ℕ
  pub gasless : Bool
  pub disabled_reason : Option Text
  pub authorization : Option (Value × Value)

-- viem's address functions, and the message of the `TypeError` on reading a property of a nullish value.
pub record Viem : Type 0 where
  pub is_address : Text → Bool
  pub get_address : Text → Attempt Text
  pub hex_to_signature : Text → Attempt SplitSignature
  pub cannot_read : Text → Text

abbrev pub method_text : RelayMethod → Text
method_text eip3009 = lit "eip3009"
method_text permit2 = lit "permit2"

unfoldable pub relay_method : Value → Attempt RelayMethod
relay_method (string s) =
    if str_eq s (lit "eip3009")
    then ok eip3009
    else if str_eq s (lit "permit2")
    then ok permit2
    else fail (lit "method must be eip3009 or permit2.")
relay_method _ = fail (lit "method must be eip3009 or permit2.")

-- `v.k`
unfoldable pub read_property : Viem → Value → Text → Attempt Value
read_property viem v k = if is_nullish v then fail (viem.cannot_read k) else ok (member v k)

unfoldable pub required_address : Viem → Value → Text → Attempt Text
required_address viem (string s) name =
    if viem.is_address s
    then viem.get_address s
    else fail (name ++ lit " must be a valid EVM address.")
required_address viem _ name = fail (name ++ lit " must be a valid EVM address.")

-- `/^[0-9a-fA-F]+$/u`
abbrev is_hex_digit : ℕ → Bool
is_hex_digit c = is_digit c || (leb b'a' c && leb c b'f') || (leb b'A' c && leb c b'F')

-- A text of `n` units that is `0x` and hex digits.
abbrev pub is_hex : ℕ → Text → Bool
is_hex n s =
    (length s == n)
    && starts_with s (lit "0x")
    && nonempty (drop 2 s)
    && all is_hex_digit (drop 2 s)

unfoldable pub required_bytes32 : Value → Text → Attempt Text
required_bytes32 (string s) name =
    if is_hex 66 s then ok s else fail (name ++ lit " must be a bytes32 hex value.")
required_bytes32 _ name = fail (name ++ lit " must be a bytes32 hex value.")

unfoldable pub required_signature : Value → Attempt Text
required_signature (string s) =
    if is_hex 132 s then ok s else fail (lit "signature must be a 65-byte hex value.")
required_signature _ = fail (lit "signature must be a 65-byte hex value.")

abbrev no_unsigned : Text → Attempt ℤ
no_unsigned name = fail (name ++ lit " must be an unsigned integer.")

abbrev integer_from : Number → Text → Attempt ℤ
integer_from (int (pos n)) name =
    if is_safe_integer (int (pos n)) then ok (pos n) else no_unsigned name
integer_from _ name = no_unsigned name

unfoldable pub required_big_int : Value → Text → Attempt ℤ
required_big_int (bigint z) name = ok z
required_big_int (number n) name = integer_from n name
required_big_int (string s) name = if all_digits s then ok (pos (value s)) else no_unsigned name
required_big_int _ name = no_unsigned name

unfoldable pub required_string : Value → Text → Attempt Text
required_string (string s) name =
    if nonempty s then ok s else fail (name ++ lit " must be a non-empty string.")
required_string _ name = fail (name ++ lit " must be a non-empty string.")

unfoldable pub required_record : Value → Text → Attempt Value
required_record (object ms) name = ok (object ms)
required_record _ name = fail (name ++ lit " must be an object.")

abbrev pub mismatch : Text → Text
mismatch name = name ++ lit " does not match this payment intent."

unfoldable pub assert_same_address : Text → Text → Text → Attempt (Unit {0})
assert_same_address actual expected name = ensure (str_eq actual expected) (error (mismatch name))

unfoldable pub assert_same_big_int : ℤ → ℤ → Text → Attempt (Unit {0})
assert_same_big_int actual expected name = ensure (int_eq actual expected) (error (mismatch name))
