-- ===== src/Web/Finalize/Body.antt =====
-- What the body of the projection route asks for.
use zamapay.Prelude.{ℕ, ◌≡◌, ◌≤◌, Option, none, some, arith}
use zamapay.Prelude.Text.{Text, lit}
use zamapay.Js.{
  Value, undefined, null, boolean, number, bigint, string, array, object, member, Number, int,
  dyadic, infinite, nan, pos, negsuc, max_safe_integer,
}
use zamapay.Web.Finalize.{Target, by_hash, by_invoice, payment_hash, requested_invoice}

-- The invoice that a body names.
abbrev pub NamesInvoice : Value → Option ℕ → Type 0
NamesInvoice body none = requested_invoice (member body (lit "chainInvoiceId")) ≡ none
NamesInvoice body (some id) =
    (member body (lit "chainInvoiceId") ≡ number (int (pos id))) × (id ≤ max_safe_integer)

-- What a body asks for: the transaction of its hash with the invoice that it names, or that invoice
-- where it has no hash.
abbrev pub AsksFor : Value → Target → Type 0
AsksFor body (by_hash hash requested) =
    (member body (lit "paymentTxHash") ≡ string hash) × NamesInvoice body requested
AsksFor body (by_invoice id) =
    (payment_hash (member body (lit "paymentTxHash")) ≡ none) × NamesInvoice body (some id)

pub payment_hash-some : (v : Value) {hash : Text} → payment_hash v ≡ some hash → v ≡ string hash
unfolding payment_hash
payment_hash-some (string s) h = ground arith
payment_hash-some undefined h = cc
payment_hash-some null h = cc
payment_hash-some (boolean b) h = cc
payment_hash-some (number n) h = cc
payment_hash-some (bigint z) h = cc
payment_hash-some (array vs) h = cc
payment_hash-some (object ms) h = cc

safe_number-some :
    (n : Number) {id : ℕ}
    → requested_invoice (number n) ≡ some id
    → (number n ≡ number (int (pos id))) × (id ≤ max_safe_integer)
unfolding requested_invoice
safe_number-some (int (pos n)) h = ground arith
safe_number-some (int (negsuc n)) h = cc
safe_number-some (dyadic minus m k) h = cc
safe_number-some (infinite minus) h = cc
safe_number-some nan h = cc

pub requested_invoice-some :
    (v : Value) {id : ℕ}
    → requested_invoice v ≡ some id
    → (v ≡ number (int (pos id))) × (id ≤ max_safe_integer)
unfolding requested_invoice
requested_invoice-some (number n) h = safe_number-some n h
requested_invoice-some undefined h = cc
requested_invoice-some null h = cc
requested_invoice-some (boolean b) h = cc
requested_invoice-some (bigint z) h = cc
requested_invoice-some (string s) h = cc
requested_invoice-some (array vs) h = cc
requested_invoice-some (object ms) h = cc

pub requested-NamesInvoice :
    (body : Value) (requested : Option ℕ)
    → requested_invoice (member body (lit "chainInvoiceId")) ≡ requested
    → NamesInvoice body requested
requested-NamesInvoice body none h = h
requested-NamesInvoice body (some id) h = requested_invoice-some _ h
