-- ===== src/Web/Funding/Typed.antt =====
-- `normalizeTypedData`: the numerals of the data that a wallet signs become big integers.
pub mod Laws
use zamapay.Prelude.{◌≡◌, refl, ap, none, some, ◌++◌, if◌then◌else◌, Bool-cases, inl, inr}
use zamapay.Prelude.Text.{Text, lit, str_eq, all_digits}
use zamapay.Prelude.Decimal.{value}
use zamapay.Js.{
  Value, undefined, null, boolean, number, bigint, string, array, object, Values, nil, cons,
  Members, end, property, pos, member, is_object,
}
use zamapay.Web.Errors.{Attempt, ok, fail}
use zamapay.Web.Relay.{FundingAction}

abbrev of_text : Text → Value
of_text s = if all_digits s then bigint (pos (value s)) else string s

unfoldable mutual
  pub normalize_typed_value : Value → Value
  normalize_typed_value (array vs) = array (normalize_values vs)
  normalize_typed_value (object ms) = object (normalize_members ms)
  normalize_typed_value (string s) = of_text s
  normalize_typed_value undefined = undefined
  normalize_typed_value null = null
  normalize_typed_value (boolean b) = boolean b
  normalize_typed_value (number n) = number n
  normalize_typed_value (bigint z) = bigint z

  pub normalize_values : Values → Values
  normalize_values nil = nil
  normalize_values (cons v vs) = cons (normalize_typed_value v) (normalize_values vs)

  pub normalize_members : Members → Members
  normalize_members end = end
  normalize_members (property k v ms) = property k (normalize_typed_value v) (normalize_members ms)

-- What a wallet is asked to sign.
pub record TypedData : Type 0 where
  pub domain : Value
  pub message : Value
  pub primary_type : Value
  pub types : Value

unfoldable pub format_funding_method : Text → Text
format_funding_method method =
    if str_eq method (lit "eip3009_relayed")
    then lit "EIP-3009 gasless relayer"
    else if str_eq method (lit "eip3009")
    then lit "EIP-3009 authorization"
    else if str_eq method (lit "permit2_relayed")
    then lit "Permit2 gasless relayer"
    else if str_eq method (lit "permit2")
    then lit "Permit2 witness"
    else if str_eq method (lit "erc2612")
    then lit "ERC-2612 permit"
    else if str_eq method (lit "approve_pay")
    then lit "Approve and pay"
    else lit "Best available"

abbrev no_signing_data : FundingAction → Attempt TypedData
no_signing_data action =
    fail (format_funding_method action.method ++ lit " does not include signing data.")

unfoldable pub normalize_typed_data : FundingAction → Attempt TypedData
unfolding format_funding_method normalize_typed_value
normalize_typed_data action = elim action.authorization [
  | none ↦ no_signing_data action
  | some (raw, args) ↦
      if is_object raw
      then ok (record {
        domain = normalize_typed_value (member raw (lit "domain"));
        message = normalize_typed_value (member raw (lit "message"));
        primary_type = member raw (lit "primaryType");
        types = member raw (lit "types");
      })
      else no_signing_data action
]
