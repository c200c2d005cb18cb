-- ===== src/Web/Withdraws.antt =====
-- The pending withdrawals that the merchant's browser keeps in its local storage:
-- apps/web/components/merchant/PaymentProjectWithdraw.ts. JSON and the storage's quota are parameters.
pub mod Laws
pub mod Views
pub mod Verified
use zamapay.Prelude.{
  ℕ, Bool, true, false, ◌&&◌, ◌||◌, not, Option, none, some, List, [], ◌∷◌, ◌++◌, ◌or_use◌, keep,
  if◌then◌else◌,
}
use zamapay.Prelude.Text.{Text, lit, nonempty, str_eq}
use zamapay.Js.{
  Value, Values, nil, cons, Members, end, property, number, string, array, object, member,
  is_object, Number, int, pos,
}
use zamapay.Web.Errors.{Attempt, ok, throw}

-- `PendingProjectWithdraw`
pub record PendingWithdraw : Type 0 where
  pub amount_minor_units : Number
  pub chain_tx_hash : Text
  pub environment : Text
  pub project_id : Text
  pub recipient_address : Text
  pub saved_at : Number
  pub settlement_bucket_commitment : Text
  pub withdrawal_nonce : Text
  pub withdraw_check_handle : Text

-- `JSON` and `setItem`, which may throw when the storage is full.
pub record Browser : Type 0 where
  pub json_parse : Text → Option Value
  pub json_stringify : Value → Text
  pub set_item : Text → Attempt (Unit {0})

-- Where the code runs: on the server, or in a page with what its storage holds under the key.
pub data Page : Type 0 where
  no_window : Page
  window : Option Text → Page

abbrev pub is_number : Value → Bool
is_number (number _) = true
is_number _ = false

abbrev pub is_string : Value → Bool
is_string (string _) = true
is_string _ = false

-- The object that is stored.
unfoldable pub withdraw_value : PendingWithdraw → Value
withdraw_value w = object (
    property (lit "amountMinorUnits") (number w.amount_minor_units) (
      property (lit "chainTxHash") (string w.chain_tx_hash) (
        property (lit "environment") (string w.environment) (
          property (lit "projectId") (string w.project_id) (
            property (lit "recipientAddress") (string w.recipient_address) (
              property (lit "savedAt") (number w.saved_at) (
                property (lit "settlementBucketCommitment") (string w.settlement_bucket_commitment)
                  (property (lit "withdrawalNonce") (string w.withdrawal_nonce) (
                    property (lit "withdrawCheckHandle") (string w.withdraw_check_handle)
                      end)))))))))

unfoldable pub is_pending_project_withdraw : Value → Bool
is_pending_project_withdraw v =
    is_object v
    && is_number (member v (lit "amountMinorUnits"))
    && is_string (member v (lit "chainTxHash"))
    && is_string (member v (lit "environment"))
    && is_string (member v (lit "projectId"))
    && is_string (member v (lit "recipientAddress"))
    && is_number (member v (lit "savedAt"))
    && is_string (member v (lit "settlementBucketCommitment"))
    && is_string (member v (lit "withdrawalNonce"))
    && is_string (member v (lit "withdrawCheckHandle"))

abbrev pub list_of : Values → List Value
list_of nil = []
list_of (cons v vs) = v ∷ list_of vs

abbrev pub values_of : List Value → Values
values_of [] = nil
values_of (v ∷ vs) = cons v (values_of vs)

-- `v === s`
abbrev pub is_the_text : Text → Value → Bool
is_the_text s (string t) = str_eq t s
is_the_text s _ = false

-- `v.k === s`
abbrev pub has_text : Text → Text → Value → Bool
has_text k s v = is_the_text s (member v k)

-- `withdraw.projectId === projectId && withdraw.chainTxHash === chainTxHash`
unfoldable pub is_withdraw_of : Text → Text → Value → Bool
is_withdraw_of project tx v =
    has_text (lit "projectId") project v && has_text (lit "chainTxHash") tx v

abbrev pub parsed_withdraws : Option Value → List Value
parsed_withdraws (some (array vs)) = keep is_pending_project_withdraw (list_of vs)
parsed_withdraws _ = []

-- `pendingProjectWithdraws()`
unfoldable pub all_pending : Browser → Page → List Value
all_pending browser no_window = []
all_pending browser (window stored) = parsed_withdraws (browser.json_parse (stored or_use lit "[]"))

-- `pendingProjectWithdraws(projectId)`
unfoldable pub pending_project_withdraws : Browser → Page → Text → List Value
pending_project_withdraws browser page project =
    let all = all_pending browser page in
    if nonempty project then keep (has_text (lit "projectId") project) all else all

abbrev written : Text → Attempt (Unit {0}) → Option Text → Attempt (Unit {0}) × Page
written text (throw e) stored = (throw e, window stored)
written text (ok _) stored = (ok tt, window (some text))

unfoldable pub write_pending : Browser → List Value → Page → Attempt (Unit {0}) × Page
write_pending browser withdraws no_window = (ok tt, no_window)
write_pending browser withdraws (window stored) =
    let text = browser.json_stringify (array (values_of withdraws)) in
    written text (browser.set_item text) stored

-- The pending withdrawals of other keys.
abbrev pub remaining : Browser → Page → Text → Text → List Value
remaining browser page project tx =
    keep (λ v. not (is_withdraw_of project tx v)) (all_pending browser page)

unfoldable pub save_pending : Browser → PendingWithdraw → Page → Attempt (Unit {0}) × Page
save_pending browser w page =
    write_pending browser
      (remaining browser page w.project_id w.chain_tx_hash ++ withdraw_value w ∷ []) page

unfoldable pub clear_pending : Browser → Text → Text → Page → Attempt (Unit {0}) × Page
clear_pending browser project tx page =
    write_pending browser (remaining browser page project tx) page

-- What is posted to the API of a withdrawal.
unfoldable pub project_withdraw_payload : Value → Value
project_withdraw_payload w = object (
    property (lit "amountMinorUnits") (member w (lit "amountMinorUnits")) (
      property (lit "chainTxHash") (member w (lit "chainTxHash")) (
        property (lit "recipientAddress") (member w (lit "recipientAddress")) (
          property (lit "settlementBucketCommitment") (member w (lit "settlementBucketCommitment"))
            (property (lit "withdrawalNonce") (member w (lit "withdrawalNonce"))
              (property (lit "withdrawCheckHandle") (member w (lit "withdrawCheckHandle")) end))))))
