-- ===== src/Web/Receipts.antt =====
-- What the routes that check a transaction share: replies in JSON, their errors, the receipt and the
-- event that a contract emitted in it. viem's clients and log parser are a parameter.
use zamapay.Prelude.{
  ℕ, ◌≡◌, arith, true, Bool, none, some, List, ◌or_use◌, keep, first, if◌then◌else◌,
}
use zamapay.Prelude.Text.{Text, lit, str_eq, to_lower}
use zamapay.Js.{Value, object, property, string, end}
use zamapay.Web.Errors.{Failure, route_error, Attempt, ok, throw, error_message}

pub record JsonReply : Type 0 where
  pub reply_status : ℕ
  pub json : Value

-- `NextResponse.json({ error: message }, { status })`
abbrev pub error_reply : ℕ → Text → JsonReply
error_reply status message = record {
  reply_status = status;
  json = object (property (lit "error") (string message) end);
}

-- `routeFailure`, with the message for what is no `Error`
unfoldable pub route_failure : Text → Failure → JsonReply
route_failure default (route_error message status) = error_reply status message
route_failure default e = error_reply 502 (error_message e or_use default)

pub record Log : Type 0 where
  pub emitter : Text
  pub topics : List Text
  pub payload : Text

pub record TxReceipt : Type 0 where
  pub succeeded : Bool
  pub logs : List Log

pub record ChainReader (Event : Type 0) : Type 0 where
  pub get_transaction_receipt : Text → Attempt TxReceipt
  pub parse_event_logs : List Log → List Event

abbrev pub logs_of : Text → TxReceipt → List Log
logs_of address receipt =
    keep (λ log. str_eq (to_lower log.emitter) (to_lower address)) receipt.logs

module _ {Event : Type 0} (reader : ChainReader Event) where
  -- The receipt of a transaction that succeeded; `missing` and `failed` are the errors' messages.
  unfoldable pub successful_receipt : Text → Text → Text → Attempt TxReceipt
  successful_receipt missing failed hash = elim (reader.get_transaction_receipt hash) [
    | throw _ ↦ throw (route_error missing 404)
    | ok receipt ↦ if receipt.succeeded then ok receipt else throw (route_error failed 409)
  ]

  -- The first event of the contract in the receipt, or the error with the message `absent`.
  unfoldable pub emitted_event : Text → Text → TxReceipt → Attempt Event
  emitted_event absent address receipt =
      elim (first (reader.parse_event_logs (logs_of address receipt))) [
        | none ↦ throw (route_error absent 409)
        | some event ↦ ok event
      ]

  -- The event that a successful transaction emitted first at the contract.
  abbrev pub Emitted : Text → Text → Event → Type 0
  Emitted address hash event =
      (receipt : TxReceipt) × (reader.get_transaction_receipt hash ≡ ok receipt)
      × (receipt.succeeded ≡ true)
      × (first (reader.parse_event_logs (logs_of address receipt)) ≡ some event)

  pub successful_receipt-ok :
      (missing failed hash : Text) {receipt : TxReceipt}
      → successful_receipt missing failed hash ≡ ok receipt
      → (reader.get_transaction_receipt hash ≡ ok receipt) × (receipt.succeeded ≡ true)
  unfolding successful_receipt
  successful_receipt-ok missing failed hash h = ground arith

  pub emitted_event-ok :
      (absent address : Text) (receipt : TxReceipt) {event : Event}
      → emitted_event absent address receipt ≡ ok event
      → first (reader.parse_event_logs (logs_of address receipt)) ≡ some event
  unfolding emitted_event
  emitted_event-ok absent address receipt h = ground arith
