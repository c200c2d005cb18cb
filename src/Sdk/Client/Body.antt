-- ===== src/Sdk/Client/Body.antt =====
-- The checks on the input of a checkout session, and the body that is sent.
use zamapay.Prelude.{Bool, true, false, ◌||◌, not, List, [], ◌∷◌, ◌++◌, if◌then◌else◌}
use zamapay.Prelude.Text.{Text, lit, nonempty, trim}
use zamapay.Js.{
  Value, Members, undefined, string, number, object, end, property, member, Number, is_safe_integer,
  is_negative,
}
use zamapay.Sdk.Errors.{invalid_request_error}
use zamapay.Sdk.Result.{Result, ok, ◌>>=◌, ◌>>◌, raise}
use zamapay.Sdk.Rails.{PaymentRail, zama_private, evm_erc20, rail_text, require_payment_rail}

unfoldable pub validate_nonempty_string : Value → Text → Result Text
validate_nonempty_string (string s) name =
    if nonempty (trim s) then ok s else raise invalid_request_error (lit "missing_" ++ name)
validate_nonempty_string _ name = raise invalid_request_error (lit "missing_" ++ name)

unfoldable pub validate_safe_integer : Value → Text → Result Number
validate_safe_integer (number n) name =
    if not (is_safe_integer n) || is_negative n
    then raise invalid_request_error (lit "invalid_" ++ name)
    else ok n
validate_safe_integer _ name = raise invalid_request_error (lit "invalid_" ++ name)

abbrev pub is_undefined : Value → Bool
is_undefined undefined = true
is_undefined _ = false

unfoldable pub reject_extraneous_fields : Value → List Text → Result (Unit {0})
reject_extraneous_fields input [] = ok tt
reject_extraneous_fields input (name ∷ names) =
    let rest = reject_extraneous_fields input names in
    if is_undefined (member input name)
    then rest
    else raise invalid_request_error (lit "unexpected_" ++ name)

pub record BaseBody : Type 0 where
  pub amount_label : Value
  pub amount_minor_units : Number
  pub cancel_url : Value
  pub merchant_order_id : Text
  pub metadata : Value
  pub note : Value
  pub success_url : Value
  pub title : Text

unfoldable pub checkout_session_base_body : Value → Result BaseBody
checkout_session_base_body input = do
  amount ← validate_safe_integer (member input (lit "amountMinorUnits")) (lit "amountMinorUnits")
  order ← validate_nonempty_string (member input (lit "merchantOrderId")) (lit "merchantOrderId")
  title ← validate_nonempty_string (member input (lit "title")) (lit "title")
  ok (record {
    amount_label = member input (lit "amountLabel");
    amount_minor_units = amount;
    cancel_url = member input (lit "cancelUrl");
    merchant_order_id = order;
    metadata = member input (lit "metadata");
    note = member input (lit "note");
    success_url = member input (lit "successUrl");
    title = title;
  })

-- `...base`, before the members of the rail
abbrev pub base_members : BaseBody → Members → Members
base_members b rest = property (lit "amountLabel") b.amount_label (
    property (lit "amountMinorUnits") (number b.amount_minor_units) (
      property (lit "cancelUrl") b.cancel_url (
        property (lit "merchantOrderId") (string b.merchant_order_id) (
          property (lit "metadata") b.metadata (
            property (lit "note") b.note (
              property (lit "successUrl") b.success_url
                (property (lit "title") (string b.title) rest)))))))

-- The members that belong to the other rail, and the number and the text of a rail's own.
abbrev pub foreign : PaymentRail → List Text
foreign zama_private = lit "evmChainId" ∷ lit "evmTokenSymbol" ∷ []
foreign evm_erc20 = lit "chainInvoiceId" ∷ lit "chainTxHash" ∷ []

abbrev pub number_field : PaymentRail → Text
number_field zama_private = lit "chainInvoiceId"
number_field evm_erc20 = lit "evmChainId"

abbrev pub text_field : PaymentRail → Text
text_field zama_private = lit "chainTxHash"
text_field evm_erc20 = lit "evmTokenSymbol"

pub record RailBody : Type 0 where
  pub own_number : Number
  pub own_text : Text

-- The checks of the two branches of `checkoutSessionBody`.
unfoldable pub rail_body : PaymentRail → Value → Result RailBody
rail_body rail input = do
  reject_extraneous_fields input (foreign rail)
  n ← validate_safe_integer (member input (number_field rail)) (number_field rail)
  s ← validate_nonempty_string (member input (text_field rail)) (text_field rail)
  ok (record { own_number = n; own_text = s })

abbrev pub rail_members : PaymentRail → RailBody → Members
rail_members rail b = property (number_field rail) (number b.own_number) (
    property (text_field rail) (string b.own_text)
      (property (lit "paymentRail") (string (rail_text rail)) end))

unfoldable pub checkout_session_body : Value → Result Value
checkout_session_body input = do
  rail ← require_payment_rail (member input (lit "paymentRail"))
  base ← checkout_session_base_body input
  own ← rail_body rail input
  ok (object (base_members base (rail_members rail own)))
