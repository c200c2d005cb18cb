-- ===== src/Prelude/Search.antt =====
-- Searches, filters and images of lists against what holds of all elements.
use mathlib.Core.Path.{◌≡◌, subst}
use mathlib.Core.Bool.{Bool, true, false}
use mathlib.Core.Option.{none, some}
use mathlib.Core.List.{List, [], ◌∷◌, ◌++◌, map}
use mathlib.Core.Logic.{inl, inr}
use zamapay.Prelude.Tests.{Bool-cases}
use zamapay.Prelude.Lists.{find, keep, All}

pub some-injective {ℓ} : {A : Type ℓ} {a b : A} → some a ≡ some b → a ≡ b
some-injective h = cc

module _ {ℓ κ} {A : Type ℓ} (P : A → Type κ) where
  pub All-keep :
      (test : A → Bool) (xs : List A) → All P (keep test xs) → All (λ x. test x ≡ true → P x) xs
  All-keep test [] _ = tt
  All-keep test (x ∷ xs) h = elim (Bool-cases (test x)) [
    | inl e ↦
        let (p, ps) : P x × All P (keep test xs) = rw e at h in ((λ _. p), All-keep test xs ps)
    | inr e ↦ let ps : All P (keep test xs) = rw e at h in ((λ t. cc), All-keep test xs ps)
  ]

  -- What is found has the properties of all.
  pub find-All : (test : A → Bool) (xs : List A) {a : A} → find test xs ≡ some a → All P xs → P a
  find-All test [] e _ = cc
  find-All test (x ∷ xs) e (p, ps) = elim (Bool-cases (test x)) [
    | inl t ↦ subst P (some-injective (rw t at e)) p
    | inr t ↦ find-All test xs (rw t at e) ps
  ]

  pub append-All : (xs ys : List A) → All P (xs ++ ys) → All P xs × All P ys
  append-All [] ys h = (tt, h)
  append-All (x ∷ xs) ys (p, h) = let (l, r) = append-All xs ys h in ((p, l), r)

pub find-none {ℓ} :
    {A : Type ℓ} (test : A → Bool) (xs : List A)
    → find test xs ≡ none
    → All (λ b. test b ≡ false) xs
find-none test [] _ = tt
find-none test (x ∷ xs) e = elim (Bool-cases (test x)) [
  | inl t ↦ cc
  | inr t ↦ (t, find-none test xs (rw t at e))
]

module _ {ℓ κ μ} {A : Type ℓ} {B : Type κ} (P : B → Type μ) (f : A → B) where
  pub All-map_of : (xs : List A) → All (λ x. P (f x)) xs → All P (map f xs)
  All-map_of [] h = tt
  All-map_of (x ∷ xs) (p, h) = (p, All-map_of xs h)

  pub map-All : (xs : List A) → All P (map f xs) → All (λ x. P (f x)) xs
  map-All [] h = tt
  map-All (x ∷ xs) (p, h) = (p, map-All xs h)
