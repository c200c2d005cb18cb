-- ===== src/Web/Withdraws/Laws.antt =====
-- What the storage lists after a write.
use zamapay.Prelude.{
  ◌≡◌, refl, ap, ◌∙◌, true, not, Option, none, some, List, [], ◌∷◌, ◌++◌, All, All-append,
  keep_same, keep-true, keep-All,
}
use zamapay.Prelude.Text.{Text, str_eq}
use zamapay.Js.{
  Value, array, undefined, null, boolean, number, bigint, string, object, member, find_member,
}
use zamapay.Web.Errors.{ok}
use zamapay.Web.Withdraws.{
  PendingWithdraw, Browser, Page, no_window, window, withdraw_value, is_pending_project_withdraw,
  is_withdraw_of, list_of, parsed_withdraws, values_of, all_pending, write_pending, remaining,
  save_pending, clear_pending,
}

-- The storage accepts the list, and reads it back as it was.
abbrev pub Stores : Browser → List Value → Type 0
Stores browser withdraws =
    (browser.set_item (browser.json_stringify (array (values_of withdraws))) ≡ ok tt)
    × (browser.json_parse (browser.json_stringify (array (values_of withdraws)))
        ≡ some (array (values_of withdraws)))

abbrev pub IsPending : Value → Type 0
IsPending v = is_pending_project_withdraw v ≡ true

list-values_of : (vs : List Value) → list_of (values_of vs) ≡ vs
list-values_of [] = refl
list-values_of (v ∷ vs) = ap (λ ws. v ∷ ws) (list-values_of vs)

pub withdraw_value-IsPending : (w : PendingWithdraw) → IsPending (withdraw_value w)
unfolding withdraw_value is_pending_project_withdraw member find_member str_eq
withdraw_value-IsPending w = refl

parsed-IsPending : (parsed : Option Value) → All IsPending (parsed_withdraws parsed)
parsed-IsPending none = tt
parsed-IsPending (some (array vs)) = keep-true is_pending_project_withdraw (list_of vs)
parsed-IsPending (some undefined) = tt
parsed-IsPending (some null) = tt
parsed-IsPending (some (boolean b)) = tt
parsed-IsPending (some (number n)) = tt
parsed-IsPending (some (bigint z)) = tt
parsed-IsPending (some (string t)) = tt
parsed-IsPending (some (object ms)) = tt

pub all_pending-IsPending :
    (browser : Browser) (page : Page) → All IsPending (all_pending browser page)
unfolding all_pending
all_pending-IsPending browser no_window = tt
all_pending-IsPending browser (window stored) = parsed-IsPending _

pub written-lists :
    (browser : Browser) (stored : Option Text) (vs : List Value)
    → All IsPending vs
    → Stores browser vs
    → all_pending browser (write_pending browser vs (window stored)).1 ≡ vs
unfolding all_pending write_pending
written-lists browser stored vs h (accepts, reads) =
    rw (accepts, reads)
      (keep_same is_pending_project_withdraw (list_of (values_of vs)) (rw (list-values_of vs) h)
        ∙ list-values_of vs)

-- After a save that is stored, the list has the other keys' withdrawals as before, and then the new one.
pub save_pending-lists :
    (browser : Browser) (stored : Option Text) (w : PendingWithdraw)
    → Stores browser
        (remaining browser (window stored) w.project_id w.chain_tx_hash ++ withdraw_value w ∷ [])
    → all_pending browser (save_pending browser w (window stored)).1
      ≡ remaining browser (window stored) w.project_id w.chain_tx_hash ++ withdraw_value w ∷ []
unfolding save_pending
save_pending-lists browser stored w h =
    written-lists browser stored _
      (All-append IsPending (remaining browser (window stored) w.project_id w.chain_tx_hash) _
        (keep-All IsPending (λ v. not (is_withdraw_of w.project_id w.chain_tx_hash v)) _
          (all_pending-IsPending browser (window stored)))
        (withdraw_value-IsPending w, tt))
      h

pub clear_pending-lists :
    (browser : Browser) (stored : Option Text) (project tx : Text)
    → Stores browser (remaining browser (window stored) project tx)
    → all_pending browser (clear_pending browser project tx (window stored)).1
      ≡ remaining browser (window stored) project tx
unfolding clear_pending
clear_pending-lists browser stored project tx h =
    written-lists browser stored _
      (keep-All IsPending (λ v. not (is_withdraw_of project tx v)) _
        (all_pending-IsPending browser (window stored)))
      h
