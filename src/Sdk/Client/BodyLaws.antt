-- ===== src/Sdk/Client/BodyLaws.antt =====
-- What holds of a checkout body that passes the checks.
use zamapay.Prelude.{
  sym, ◌∙◌, subst, suc, leb, ◌≤◌, ◌≡◌, refl, inl, inr, true, List, [], ◌∷◌, arith, Bool-cases, All,
}
use zamapay.Prelude.Text.{Text, lit, nonempty, trim, str_eq}
use zamapay.Js.{
  Value, undefined, number, string, object, member, Number, int, pos, negsuc, max_safe_integer,
}
use zamapay.Sdk.Result.{Result, ok, throw, >>=-eq-ok, ok-injective}
use zamapay.Sdk.Rails.{PaymentRail, zama_private, evm_erc20, rail_text, require_payment_rail}
use zamapay.Sdk.Client.Body.{
  validate_nonempty_string, validate_safe_integer, is_undefined, reject_extraneous_fields, BaseBody,
  checkout_session_base_body, base_members, foreign, number_field, text_field, RailBody, rail_body,
  rail_members, checkout_session_body,
}

pub validate_nonempty_string-ok :
    (v : Value) (name : Text) {s : Text}
    → validate_nonempty_string v name ≡ ok s
    → (v ≡ string s) × (nonempty (trim s) ≡ true)
unfolding validate_nonempty_string
validate_nonempty_string-ok (string s) name h = ground arith
validate_nonempty_string-ok _ name h = cc

-- A non-negative safe integer.
abbrev pub IsAmount : Value → Type 0
IsAmount (number (int (pos n))) = n ≤ max_safe_integer
IsAmount _ = ⊥

abbrev Ensures : Result Number → Type 0
Ensures (ok n) = IsAmount (number n)
Ensures (throw _) = Unit

validate_safe_integer-Ensures : (v : Value) (name : Text) → Ensures (validate_safe_integer v name)
unfolding validate_safe_integer
validate_safe_integer-Ensures (number (int (pos n))) name =
    elim (Bool-cases (leb n max_safe_integer)) [
      | inl e ↦ rw (e, Ensures) (ground arith)
      | inr e ↦ rw (e, Ensures) tt
    ]
validate_safe_integer-Ensures (number (int (negsuc n))) name =
    elim (Bool-cases (leb (suc n) max_safe_integer)) [
      | inl e ↦ rw (e, Ensures) tt
      | inr e ↦ rw (e, Ensures) tt
    ]
validate_safe_integer-Ensures (number _) name = tt
validate_safe_integer-Ensures _ name = tt

validate_safe_integer-ok :
    (v : Value) (name : Text) {n : Number}
    → validate_safe_integer v name ≡ ok n
    → IsAmount (number n)
validate_safe_integer-ok v name h = rw h at (validate_safe_integer-Ensures v name)

is_undefined-true : (v : Value) → is_undefined v ≡ true → v ≡ undefined
is_undefined-true undefined h = refl
is_undefined-true _ h = cc

reject_extraneous_fields-ok :
    (input : Value) (names : List Text) {u : Unit {0}}
    → reject_extraneous_fields input names ≡ ok u
    → All (λ k. member input k ≡ undefined) names
unfolding reject_extraneous_fields
reject_extraneous_fields-ok input [] h = tt
reject_extraneous_fields-ok input (name ∷ names) h =
    elim (Bool-cases (is_undefined (member input name))) [
      | inl e ↦ (
        is_undefined-true _ e,
        reject_extraneous_fields-ok input names (rw (e, reject_extraneous_fields) at h),
      )
      | inr e ↦ cc (rw (e, reject_extraneous_fields) at h)
    ]

-- A body for one rail: its amount and the rail's number are safe integers from 0, the texts are
-- those of the input and not blank, and neither it nor the input has a member of the other rail.
pub record IsBody (rail : PaymentRail) (input body : Value) : Type 0 where
  pub rail_of : member body (lit "paymentRail") ≡ string (rail_text rail)
  pub amount : IsAmount (member body (lit "amountMinorUnits"))
  pub order : member body (lit "merchantOrderId") ≡ member input (lit "merchantOrderId")
  pub own_number : IsAmount (member body (number_field rail))
  pub own_text : member body (text_field rail) ≡ member input (text_field rail)
  pub others_absent : All (λ k. member body k ≡ undefined) (foreign rail)
  pub others_rejected : All (λ k. member input k ≡ undefined) (foreign rail)

base-ok :
    (input : Value) {b : BaseBody}
    → checkout_session_base_body input ≡ ok b
    → IsAmount (number b.amount_minor_units)
      × (member input (lit "merchantOrderId") ≡ string b.merchant_order_id)
unfolding checkout_session_base_body
base-ok input hb =
    let (amount, ha, hb₁) = >>=-eq-ok (validate_safe_integer _ _) _ hb in
    let (order, ho, hb₂) = >>=-eq-ok (validate_nonempty_string _ _) _ hb₁ in
    let (title, ht, hb₃) = >>=-eq-ok (validate_nonempty_string _ _) _ hb₂ in
    subst
      (λ r.
        IsAmount (number r.amount_minor_units)
        × (member input (lit "merchantOrderId") ≡ string r.merchant_order_id))
      (ok-injective hb₃) (validate_safe_integer-ok _ _ ha, (validate_nonempty_string-ok _ _ ho).0)

rail_body-ok :
    (rail : PaymentRail) (input : Value) {b : RailBody}
    → rail_body rail input ≡ ok b
    → IsAmount (number b.own_number)
      × (member input (text_field rail) ≡ string b.own_text)
      × All (λ k. member input k ≡ undefined) (foreign rail)
unfolding rail_body
rail_body-ok rail input hb =
    let (u, hu, hb₁) = >>=-eq-ok (reject_extraneous_fields _ _) _ hb in
    let (n, hn, hb₂) = >>=-eq-ok (validate_safe_integer _ _) _ hb₁ in
    let (s, hs, hb₃) = >>=-eq-ok (validate_nonempty_string _ _) _ hb₂ in
    subst
      (λ r.
        IsAmount (number r.own_number)
        × (member input (text_field rail) ≡ string r.own_text)
        × All (λ k. member input k ≡ undefined) (foreign rail))
      (ok-injective hb₃)
      (
        validate_safe_integer-ok _ _ hn,
        (validate_nonempty_string-ok _ _ hs).0,
        reject_extraneous_fields-ok input (foreign rail) hu,
      )

module _ (base : BaseBody) (own : RailBody) where
  -- Reading the members of the body that was built.
  members-zama :
      let b = object (base_members base (rail_members zama_private own)) in
      (member b (lit "paymentRail") ≡ string (rail_text zama_private))
      × (member b (lit "amountMinorUnits") ≡ number base.amount_minor_units)
      × (member b (lit "merchantOrderId") ≡ string base.merchant_order_id)
      × (member b (number_field zama_private) ≡ number own.own_number)
      × (member b (text_field zama_private) ≡ string own.own_text)
      × All (λ k. member b k ≡ undefined) (foreign zama_private)
  unfolding member str_eq
  members-zama = (refl, refl, refl, refl, refl, (refl, (refl, tt)))

  members-evm :
      let b = object (base_members base (rail_members evm_erc20 own)) in
      (member b (lit "paymentRail") ≡ string (rail_text evm_erc20))
      × (member b (lit "amountMinorUnits") ≡ number base.amount_minor_units)
      × (member b (lit "merchantOrderId") ≡ string base.merchant_order_id)
      × (member b (number_field evm_erc20) ≡ number own.own_number)
      × (member b (text_field evm_erc20) ≡ string own.own_text)
      × All (λ k. member b k ≡ undefined) (foreign evm_erc20)
  unfolding member str_eq
  members-evm = (refl, refl, refl, refl, refl, (refl, (refl, tt)))

members-IsBody :
    (rail : PaymentRail) (input : Value) (base : BaseBody) (own : RailBody)
    → checkout_session_base_body input ≡ ok base
    → rail_body rail input ≡ ok own
    → IsBody rail input (object (base_members base (rail_members rail own)))
members-IsBody zama_private input base own hb ho =
    let (rail_of, amount, order, number_of, text_of, absent) = members-zama base own in
    let (is_amount, same_order) = base-ok input hb in
    let (is_number, same_text, rejected) = rail_body-ok zama_private input ho in
    record {
      rail_of = rail_of;
      amount = rw amount is_amount;
      order = order ∙ sym same_order;
      own_number = rw number_of is_number;
      own_text = text_of ∙ sym same_text;
      others_absent = absent;
      others_rejected = rejected;
    }
members-IsBody evm_erc20 input base own hb ho =
    let (rail_of, amount, order, number_of, text_of, absent) = members-evm base own in
    let (is_amount, same_order) = base-ok input hb in
    let (is_number, same_text, rejected) = rail_body-ok evm_erc20 input ho in
    record {
      rail_of = rail_of;
      amount = rw amount is_amount;
      order = order ∙ sym same_order;
      own_number = rw number_of is_number;
      own_text = text_of ∙ sym same_text;
      others_absent = absent;
      others_rejected = rejected;
    }

-- A body that the client builds belongs to exactly the rail that the input names: its amount and
-- the rail's number are safe integers from 0, the order id and the rail's text are the input's, and
-- neither the body nor the input has a member of the other rail.
pub checkout_session_body-IsBody :
    (input : Value) {body : Value}
    → checkout_session_body input ≡ ok body
    → (rail : PaymentRail) × (require_payment_rail (member input (lit "paymentRail")) ≡ ok rail)
      × IsBody rail input body
unfolding checkout_session_body
checkout_session_body-IsBody input h =
    let (rail, hr, h₁) = >>=-eq-ok (require_payment_rail _) _ h in
    let (base, hb, h₂) = >>=-eq-ok (checkout_session_base_body input) _ h₁ in
    let (own, ho, h₃) = >>=-eq-ok (rail_body rail input) _ h₂ in
    (
      rail,
      hr,
      subst (IsBody rail input) (ok-injective h₃) (members-IsBody rail input base own hb ho),
    )
