-- ===== src/Web/Checkout/Bounds.antt =====
-- How long the shortened texts of a checkout are.
use zamapay.Prelude.{
  ℕ, ◌+◌, ◌-◌, ◌≤◌, ◌≡◌, none, ◌++◌, ltb, arith, take, length, length-append, length-take,
  length-drop, ◌or_use◌, Bool-cases, inl, inr,
}
use zamapay.Prelude.Text.{Text, lit, includes}
use zamapay.Web.Errors.{Failure, error_message}
use zamapay.Web.Checkout.{
  last_units, short_invoice_id, short_hex, shortened, first_line, readable_message, readable_error,
  revert_reason,
}

-- What is left of a text around its ends.
ends-length : (n m : ℕ) (s : Text) → length (take n s ++ lit "..." ++ last_units m s) ≤ n + 3 + m
ends-length n m s = omega (
  arith,
  length-append (take n s ++ lit "...") (last_units m s),
  length-append (take n s) (lit "..."),
  length-take n s,
  length-drop (length s - m) s,
)

shortened-length : (s : Text) → length (shortened s) ≤ 180
shortened-length s = elim (Bool-cases (ltb 180 (length s))) [
  | inl long ↦ rw long (omega (arith, length-append (take 177 s) (lit "..."), length-take 177 s))
  | inr short ↦ rw short (ground arith)
]

readable-length :
    (message : Text) → revert_reason message ≡ none → length (readable_message message) ≤ 180
unfolding readable_message
readable-length message h = elim (Bool-cases (includes message (lit "User rejected"))) [
  | inl t ↦ rw t (omega arith)
  | inr t ↦ rw (t, h) (shortened-length (first_line message))
]

-- The two identifiers shown have at most 19 and 17 units, and the text of an error that names no
-- reason of a revert has at most 180.
pub checkout_texts-length :
    (id hex : Text) (e : Failure)
    → revert_reason (error_message e or_use lit "Payment failed.") ≡ none
    → (length (short_invoice_id id) ≤ 19)
      × (length (short_hex hex) ≤ 17)
      × (length (readable_error e) ≤ 180)
unfolding short_invoice_id short_hex readable_error
checkout_texts-length id hex e h = (
  ground (arith, ends-length 10 6 id),
  ground (arith, ends-length 8 6 hex),
  readable-length (error_message e or_use lit "Payment failed.") h,
)
