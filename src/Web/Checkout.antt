-- ===== src/Web/Checkout.antt =====
-- apps/web/components/checkout/checkout-helpers.ts: the payer of a checkout, the waiting for the
-- projection of its payment, and its texts. viem, the wallet, fetch and JSON are parameters.
pub mod Bounds
pub mod Payer
pub mod Waiting
use zamapay.Prelude.{
  ℕ, zero, suc, ◌+◌, ◌-◌, Bool, true, false, not, ◌&&◌, ◌||◌, Option, none, some, List, [], ◌∷◌,
  ◌++◌, ◌or_use◌, ◌or_try◌, ltb, ◌==◌, any, take, drop, length, if◌then◌else◌,
}
use zamapay.Prelude.Text.{
  Text, lit, includes, nonempty, starts_with, str_eq, to_lower, trim, trim_start,
}
use zamapay.Web.Errors.{Failure, Attempt, ok, throw, fail, error_message}

-- `value.slice(-n)`
abbrev pub last_units : ℕ → Text → Text
last_units n s = drop (length s - n) s

unfoldable pub short_invoice_id : Text → Text
short_invoice_id id = if ltb 16 (length id) then take 10 id ++ lit "..." ++ last_units 6 id else id

unfoldable pub short_hex : Text → Text
short_hex s = if ltb 14 (length s) then take 8 s ++ lit "..." ++ last_units 6 s else s

-- `getAddress`, which throws on what is no address
unfoldable pub ensure_hex_address : (Text → Attempt Text) → Option Text → Text → Attempt Text
ensure_hex_address get_address none label =
    fail (label ++ lit " is not deployed in the contract manifest.")
ensure_hex_address get_address (some address) label =
    if nonempty address
    then elim (get_address address) [
      | ok checked ↦ ok checked
      | throw _ ↦ fail (label ++ lit " is not a valid EVM address.")
    ]
    else fail (label ++ lit " is not deployed in the contract manifest.")

-- The text before the first line feed.
abbrev pub line : Text → Text
line [] = []
line (c ∷ s) = let rest = line s in if c == 10 then [] else c ∷ rest

abbrev revert_marker : Text
revert_marker = lit "reverted with the following reason:"

-- The group of the pattern after its marker: `\s*` takes all spaces, and gives back what the group
-- needs to have a unit; a group of spaces is trimmed to nothing.
abbrev reason_after : Text → Option Text
reason_after rest =
    if nonempty (trim_start rest)
    then some (trim (line (trim_start rest)))
    else if any (λ c. not (c == 10)) rest
    then some []
    else none

-- The first match of the pattern.
unfoldable pub revert_reason : Text → Option Text
revert_reason [] = none
revert_reason (c ∷ s) =
    let rest = revert_reason s in
    if starts_with (to_lower (c ∷ s)) revert_marker
    then reason_after (drop (length revert_marker) (c ∷ s)) or_try rest
    else rest

-- `message.split('\n')[0]?.trim() || message`
abbrev first_line : Text → Text
first_line message = if nonempty (trim (line message)) then trim (line message) else message

abbrev pub shortened : Text → Text
shortened s = if ltb 180 (length s) then take 177 s ++ lit "..." else s

abbrev pub reason_or_line : Option Text → Text → Text
reason_or_line (some reason) message = reason
reason_or_line none message = shortened (first_line message)

unfoldable pub readable_message : Text → Text
unfolding revert_reason
readable_message message =
    if includes message (lit "User rejected")
    then lit "Wallet request was rejected. Confirm the next wallet prompt to continue."
    else reason_or_line (revert_reason message) message

unfoldable pub readable_error : Failure → Text
unfolding readable_message
readable_error e = readable_message (error_message e or_use lit "Payment failed.")
