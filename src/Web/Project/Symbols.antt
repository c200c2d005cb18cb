-- ===== src/Web/Project/Symbols.antt =====
-- The symbol of a project's balance against its description by the sessions and the active balances.
use zamapay.Prelude.{
  none, some, ◌≢◌, ◌⊎◌, sym, subst, true, false, All, All-map, All-member, Member, here, there, ◌≤◌,
  ◌≡◌, refl, Option, List, [], ◌∷◌, ◌++◌, all, arith, length, length-append, if◌then◌else◌,
  Bool-cases, inl, inr,
}
use zamapay.Prelude.Text.{Text, lit, str_eq, str_eq_iff}
use zamapay.Web.Project.Seen.{
  IsActive, IsSymbolOf, IsSeen, IsShared, token_symbol-IsSymbolOf, symbols_seen-IsSeen,
  symbols_seen-All,
}
use zamapay.Web.Project.{Overview, add_symbols, symbols_seen, symbol_for, project_balance_symbol}

-- The symbol that all share, if they share one.
abbrev pub common_symbol : List Text → Text
common_symbol [] = lit "cUSDT"
common_symbol (s ∷ ss) = if all (str_eq s) ss then s else lit "stablecoin units"

add_symbols-grows : (symbols ss : List Text) → length symbols ≤ length (add_symbols symbols ss)
add_symbols-grows symbols [] = omega arith
add_symbols-grows symbols (s ∷ ss) = ground (
  arith,
  add_symbols-grows symbols ss,
  add_symbols-grows (symbols ++ s ∷ []) ss,
  length-append symbols (s ∷ []),
)

many_symbols :
    (symbols : List Text) → 2 ≤ length symbols → symbol_for symbols ≡ lit "stablecoin units"
many_symbols [] h = elim h [ ]
many_symbols (s ∷ []) h = ground arith
many_symbols (s ∷ t ∷ ss) h = refl

add_to_one :
    (s : Text) (ss : List Text) → symbol_for (add_symbols (s ∷ []) ss) ≡ common_symbol (s ∷ ss)
add_to_one s [] = refl
add_to_one s (t ∷ ss) = elim (Bool-cases (str_eq s t)) [
  | inl same ↦ rw same (add_to_one s ss)
  | inr other ↦ rw other (many_symbols _ (add_symbols-grows (s ∷ t ∷ []) ss))
]

from_seen : (ss : List Text) → symbol_for (add_symbols [] ss) ≡ common_symbol ss
from_seen [] = refl
from_seen (s ∷ ss) = add_to_one s ss

-- What the symbol of a project is: one that is seen and that all sessions and active balances share,
-- `cUSDT` where there are none, and `stablecoin units` where two that are seen differ.
abbrev pub IsBalanceSymbol : Option Overview → Text → Type 0
IsBalanceSymbol none s = s ≡ lit "cUSDT"
IsBalanceSymbol (some overview) s =
    (IsSeen overview s × IsShared overview s)
    ⊎ ((overview.checkout_sessions ≡ [])
        × All (λ balance. IsActive balance → ⊥) overview.evm_asset_balances
        × (s ≡ lit "cUSDT"))
    ⊎ ((s ≡ lit "stablecoin units")
        × ((a : Text) × (b : Text) × (a ≢ b) × IsSeen overview a × IsSeen overview b))

none_in {ℓ} : {A : Type ℓ} (xs : List A) → All (λ _. ⊥) xs → xs ≡ []
none_in [] h = refl
none_in (x ∷ xs) (stop, h) = elim stop [ ]

all-same : (s : Text) (ss : List Text) → all (str_eq s) ss ≡ true → All (λ t. s ≡ t) ss
all-same s [] h = tt
all-same s (t ∷ ss) h = elim (Bool-cases (str_eq s t)) [
  | inl e ↦ ((str_eq_iff s t).0 e, all-same s ss (rw e at h))
  | inr e ↦ cc
]

all-other :
    (s : Text) (ss : List Text) → all (str_eq s) ss ≡ false → (t : Text) × Member t ss × (s ≢ t)
all-other s [] h = cc
all-other s (t ∷ ss) h = elim (Bool-cases (str_eq s t)) [
  | inl e ↦ let (u, m, other) = all-other s ss (rw e at h) in (u, there m, other)
  | inr e ↦ (t, here, λ same. cc ((str_eq_iff s t).1 same))
]

symbols_seen-IsShared :
    (overview : Overview) (s : Text)
    → All (λ t. s ≡ t) (symbols_seen (some overview))
    → IsShared overview s
symbols_seen-IsShared overview s h =
    let (sessions, balances) = symbols_seen-All (λ t. s ≡ t) overview h in
    (
      All-map overview.checkout_sessions
          (λ session same.
            subst (IsSymbolOf overview session) (sym same)
              (token_symbol-IsSymbolOf overview session))
          sessions,
      All-map overview.evm_asset_balances (λ balance same active. sym (same active)) balances,
    )

common-IsBalanceSymbol :
    (overview : Overview) (ss : List Text)
    → symbols_seen (some overview) ≡ ss
    → IsBalanceSymbol (some overview) (common_symbol ss)
common-IsBalanceSymbol overview [] e =
    let (sessions, balances) =
      symbols_seen-All (λ _. ⊥) overview (subst (All (λ _. ⊥)) (sym e) tt) in
    inr (inl (none_in _ sessions, balances, refl))
common-IsBalanceSymbol overview (s ∷ ss) e =
    let seen = subst (All (IsSeen overview)) e (symbols_seen-IsSeen overview) in
    elim (Bool-cases (all (str_eq s) ss)) [
      | inl same ↦ rw same (
          inl (
            seen.0,
            symbols_seen-IsShared overview s
                (subst (All (λ t. s ≡ t)) (sym e) (refl, all-same s ss same)),
          ))
      | inr differ ↦
          let (t, m, other) = all-other s ss differ in
          rw differ
            (inr (inr (refl, (s, t, other, seen.0, All-member (IsSeen overview) ss seen.1 m))))
    ]

-- The symbol shown is the one of all sessions and of all balances with an amount that is not zero, where
-- they share one, `cUSDT` where there are none of these, and `stablecoin units` where two differ. A
-- session off the ERC20 rail has `cUSDT`, one on it the symbol of its intent, or `ERC20` without one.
pub project_balance_symbol-common :
    (overview : Option Overview) → IsBalanceSymbol overview (project_balance_symbol overview)
unfolding project_balance_symbol
project_balance_symbol-common none = refl
project_balance_symbol-common (some overview) =
    let seen = symbols_seen (some overview) in
    subst (IsBalanceSymbol (some overview)) (sym (from_seen seen))
      (common-IsBalanceSymbol overview seen refl)
