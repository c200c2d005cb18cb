-- ===== src/Sdk/Webhooks/Words.antt =====
-- The candidates of a signature header.
use zamapay.Prelude.{
  ◌≡◌, Bool, true, List, [], ◌∷◌, ◌++◌, arith, All, append_assoc, append-nil, if◌then◌else◌, Member,
  here, there, any, Bool-cases, inl, inr,
}
use zamapay.Prelude.Text.{Text, nonempty}
use zamapay.Prelude.Text.Laws.{NotSpace}
use zamapay.Sdk.Webhooks.{words_from}

-- A text without white space is its only word.
pub words_from-NotSpace :
    (piece s : Text)
    → All NotSpace s
    → words_from piece s ≡ (if nonempty (piece ++ s) then (piece ++ s) ∷ [] else [])
unfolding words_from
words_from-NotSpace piece [] _ = rw append-nil
words_from-NotSpace piece (c ∷ s) (h, hs) =
    rw (h, words_from-NotSpace (piece ++ c ∷ []) s hs, append_assoc)

pub any-Member {ℓ} :
    {A : Type ℓ} (p : A → Bool) (xs : List A)
    → any p xs ≡ true
    → (x : A) × Member x xs × (p x ≡ true)
any-Member p [] h = cc
any-Member p (x ∷ xs) h = elim (Bool-cases (p x)) [
  | inl e ↦ (x, here, e)
  | inr e ↦ let (y, m, e') = any-Member p xs (rw e at h) in (y, there m, e')
]

pub Member-any {ℓ} :
    {A : Type ℓ} (p : A → Bool) {x : A} (xs : List A) → Member x xs → p x ≡ true → any p xs ≡ true
Member-any p [] m h = elim m [ ]
Member-any p (x ∷ xs) here h = rw h
Member-any p (y ∷ xs) (there m) h = ground (arith, Member-any p xs m h)
