-- ===== src/Web/Project/Seen.antt =====
-- The symbols that a project's balance can be shown in, described by its sessions, intents and balances.
use zamapay.Prelude.{
  ◌≡◌, ◌≢◌, refl, ap, ◌⊎◌, inl, inr, Bool, true, false, some, List, [], ◌∷◌, All, All-map,
  All-append, All-self, Member, arith, Bool-cases, Option-cases, find, find-true, keep, keep-All,
  keep-true, ==_iff, find-All, find-none, All-keep, All-map_of, map-All, append-All,
}
use zamapay.Prelude.Text.{Text, lit, str_eq, str_eq_iff}
use zamapay.Js.{Number, int, dyadic, infinite, nan, pos, negsuc}
use zamapay.Web.Project.{
  CheckoutSession, EvmPaymentIntent, EvmAssetBalance, Overview, is_zero, has_evm_balance_activity,
  is_evm, session_token_symbol, symbols_seen,
}

-- A balance with an amount that is not zero.
abbrev pub IsActive : EvmAssetBalance → Type 0
IsActive balance =
    (balance.confirmed_minor_units ≢ int (pos 0))
    ⊎ (balance.pending_minor_units ≢ int (pos 0))
    ⊎ (balance.exception_minor_units ≢ int (pos 0))
    ⊎ (balance.withdrawable_minor_units ≢ int (pos 0))

-- The symbol of a session: `cUSDT` off the ERC20 rail, and on it that of an intent of the session, or
-- `ERC20` where the project has none.
abbrev pub IsSymbolOf : Overview → CheckoutSession → Text → Type 0
IsSymbolOf overview session s =
    ((session.session_rail ≢ lit "evm_erc20") × (s ≡ lit "cUSDT"))
    ⊎ ((session.session_rail ≡ lit "evm_erc20")
        × ((intent : EvmPaymentIntent) × Member intent overview.evm_payment_intents
            × (intent.intent_session_id ≡ session.checkout_session_id)
            × (s ≡ intent.intent_symbol)))
    ⊎ ((session.session_rail ≡ lit "evm_erc20")
        × All (λ intent. intent.intent_session_id ≢ session.checkout_session_id)
            overview.evm_payment_intents
        × (s ≡ lit "ERC20"))

-- A symbol of a session or of an active balance.
abbrev pub IsSeen : Overview → Text → Type 0
IsSeen overview s =
    ((session : CheckoutSession) × Member session overview.checkout_sessions
      × IsSymbolOf overview session s)
    ⊎ ((balance : EvmAssetBalance) × Member balance overview.evm_asset_balances
        × IsActive balance
        × (balance.balance_symbol ≡ s))

-- The symbol of every session and of every active balance.
abbrev pub IsShared : Overview → Text → Type 0
IsShared overview s =
    All (λ session. IsSymbolOf overview session s) overview.checkout_sessions
    × All (λ balance. IsActive balance → balance.balance_symbol ≡ s) overview.evm_asset_balances

is_zero-true : (n : Number) → is_zero n ≡ true → n ≡ int (pos 0)
is_zero-true (int (pos n)) h = ap (λ m. int (pos m)) ((==_iff n 0).0 h)
is_zero-true (int (negsuc n)) h = cc
is_zero-true (dyadic minus m k) h = cc
is_zero-true (infinite minus) h = cc
is_zero-true nan h = cc

is_zero-false : (n : Number) → is_zero n ≡ false → n ≢ int (pos 0)
is_zero-false n h same = cc (ap is_zero same)

has_activity-IsActive :
    (balance : EvmAssetBalance) → has_evm_balance_activity balance ≡ true → IsActive balance
unfolding has_evm_balance_activity
has_activity-IsActive balance h = elim (Bool-cases (is_zero balance.confirmed_minor_units)) [
  | inr e ↦ inl (is_zero-false _ e)
  | inl e₁ ↦ elim (Bool-cases (is_zero balance.pending_minor_units)) [
    | inr e ↦ inr (inl (is_zero-false _ e))
    | inl e₂ ↦ elim (Bool-cases (is_zero balance.exception_minor_units)) [
      | inr e ↦ inr (inr (inl (is_zero-false _ e)))
      | inl e₃ ↦ elim (Bool-cases (is_zero balance.withdrawable_minor_units)) [
        | inr e ↦ inr (inr (inr (is_zero-false _ e)))
        | inl e₄ ↦ ground arith
      ]
    ]
  ]
]

not_active :
    (balance : EvmAssetBalance) → has_evm_balance_activity balance ≡ false → IsActive balance → ⊥
unfolding has_evm_balance_activity
not_active balance h active = ground (
  arith,
  is_zero-true balance.confirmed_minor_units,
  is_zero-true balance.pending_minor_units,
  is_zero-true balance.exception_minor_units,
  is_zero-true balance.withdrawable_minor_units,
)

pub IsActive-has_activity :
    (balance : EvmAssetBalance) → IsActive balance → has_evm_balance_activity balance ≡ true
IsActive-has_activity balance active = elim (Bool-cases (has_evm_balance_activity balance)) [
  | inl e ↦ e
  | inr e ↦ elim (not_active balance e active) [ ]
]

pub token_symbol-IsSymbolOf :
    (overview : Overview) (session : CheckoutSession)
    → IsSymbolOf overview session (session_token_symbol session (some overview))
unfolding session_token_symbol
token_symbol-IsSymbolOf overview session =
    let of_session : EvmPaymentIntent → Bool =
      λ intent. str_eq intent.intent_session_id session.checkout_session_id in
    let intents = overview.evm_payment_intents in
    elim (Bool-cases (is_evm session)) [
      | inr e ↦
          rw e
            (inl ((λ same. cc ((str_eq_iff session.session_rail (lit "evm_erc20")).1 same)), refl))
      | inl e ↦
          let on_rail = (str_eq_iff session.session_rail (lit "evm_erc20")).0 e in
          elim (Option-cases (find of_session intents)) [
            | inl h ↦
                rw (e, h)
                  (inr (
                    inr (
                      on_rail,
                      All-map intents
                          (λ intent off same. cc ((str_eq_iff intent.intent_session_id _).1 same))
                          (find-none of_session intents h),
                      refl,
                    )))
            | inr (intent, h) ↦
                rw (e, h)
                  (inr (
                    inl (
                      on_rail,
                      (
                        intent,
                        find-All (λ i. Member i intents) of_session intents h (All-self intents),
                        (str_eq_iff _ _).0 (find-true of_session intents h),
                        refl,
                      ),
                    )))
          ]
    ]

-- Each symbol that the loops add is seen.
pub symbols_seen-IsSeen :
    (overview : Overview) → All (IsSeen overview) (symbols_seen (some overview))
unfolding symbols_seen
symbols_seen-IsSeen overview =
    let sessions = overview.checkout_sessions in
    let balances = overview.evm_asset_balances in
    let active = keep has_evm_balance_activity balances in
    All-append (IsSeen overview) _ _
      (All-map_of (IsSeen overview) (λ session. session_token_symbol session (some overview))
        sessions
        (All-map sessions (λ session m. inl (session, m, token_symbol-IsSymbolOf overview session))
          (All-self sessions)))
      (All-map_of (IsSeen overview) (λ balance. balance.balance_symbol) active
        (both active
          (keep-All (λ b. Member b balances) has_evm_balance_activity balances (All-self balances))
          (keep-true has_evm_balance_activity balances)))
  where
    both :
        (bs : List EvmAssetBalance)
        → All (λ b. Member b overview.evm_asset_balances) bs
        → All (λ b. has_evm_balance_activity b ≡ true) bs
        → All (λ b. IsSeen overview b.balance_symbol) bs
    both [] _ _ = tt
    both (b ∷ bs) (m, ms) (t, ts) = (inr (b, m, has_activity-IsActive b t, refl), both bs ms ts)

-- What holds of each symbol that the loops add holds of each session's and each active balance's.
pub symbols_seen-All {ℓ} :
    (P : Text → Type ℓ) (overview : Overview)
    → All P (symbols_seen (some overview))
    → All (λ session. P (session_token_symbol session (some overview))) overview.checkout_sessions
      × All (λ balance. IsActive balance → P balance.balance_symbol) overview.evm_asset_balances
unfolding symbols_seen
symbols_seen-All P overview h =
    let balances = overview.evm_asset_balances in
    let (l, r) = append-All P _ _ h in
    (
      map-All P (λ session. session_token_symbol session (some overview)) _ l,
      All-map balances (λ b p active. p (IsActive-has_activity b active))
          (All-keep (λ b. P b.balance_symbol) has_evm_balance_activity balances
            (map-All P (λ balance. balance.balance_symbol) _ r)),
    )
