-- ===== src/Prelude/Lists.antt =====
-- Lists measured, searched and quantified over, by native numbers.
use Prim.Native.Nat.{ℕ, zero, suc, ◌+◌, ◌-◌, ◌≤◌}
use mathlib.Core.Path.{◌≡◌, refl, ap}
use mathlib.Core.Bool.{Bool, true, false, ◌&&◌, ◌||◌}
use mathlib.Core.Option.{Option, none, some}
use mathlib.Core.List.{List, [], ◌∷◌, ◌++◌}
use native.Mathlib.Omega.{arith}
use mathlib.Core.Logic.{inl, inr}
use zamapay.Prelude.Tests.{if◌then◌else◌, Bool-cases}

module _ {ℓ} {A : Type ℓ} where
  abbrev pub length : List A → ℕ
  length [] = 0
  length (x ∷ xs) = suc (length xs)

  -- `xs.find(p)`
  abbrev pub find : (A → Bool) → List A → Option A
  find p [] = none
  find p (x ∷ xs) = if p x then some x else find p xs

  -- `xs.some(p)`
  abbrev pub any : (A → Bool) → List A → Bool
  any p [] = false
  any p (x ∷ xs) = p x || any p xs

  abbrev pub all : (A → Bool) → List A → Bool
  all p [] = true
  all p (x ∷ xs) = p x && all p xs

  -- `xs.filter(p)`
  abbrev pub keep : (A → Bool) → List A → List A
  keep p [] = []
  keep p (x ∷ xs) = let rest = keep p xs in if p x then x ∷ rest else rest

  -- `xs[0]`
  abbrev pub first : List A → Option A
  first [] = none
  first (x ∷ xs) = some x

  abbrev pub take : ℕ → List A → List A
  take zero xs = []
  take (suc n) [] = []
  take (suc n) (x ∷ xs) = x ∷ take n xs

  abbrev pub drop : ℕ → List A → List A
  drop zero xs = xs
  drop (suc n) [] = []
  drop (suc n) (x ∷ xs) = drop n xs

  abbrev pub replicate : ℕ → A → List A
  replicate zero a = []
  replicate (suc n) a = a ∷ replicate n a

  pub length-take : (n : ℕ) (xs : List A) → length (take n xs) ≤ n
  length-take zero xs = omega arith
  length-take (suc n) [] = omega arith
  length-take (suc n) (x ∷ xs) = omega (arith, length-take n xs)

  pub length-drop : (n : ℕ) (xs : List A) → length (drop n xs) ≡ length xs - n
  length-drop zero xs = omega arith
  length-drop (suc n) [] = omega arith
  length-drop (suc n) (x ∷ xs) = omega (arith, length-drop n xs)

  pub length-append : (xs ys : List A) → length (xs ++ ys) ≡ length xs + length ys
  length-append [] ys = omega arith
  length-append (x ∷ xs) ys = omega (arith, length-append xs ys)

  pub length-replicate : (n : ℕ) (a : A) → length (replicate n a) ≡ n
  length-replicate zero a = refl
  length-replicate (suc n) a = ap suc (length-replicate n a)

-- The membership of a value, as the position where it stands.
pub data Member {ℓ} {A : Type ℓ} (a : A) : List A → Type ℓ where
  here : {xs : List A} → Member a (a ∷ xs)
  there : {x : A} {xs : List A} → Member a xs → Member a (x ∷ xs)

module _ {ℓ κ} {A : Type ℓ} (P : A → Type κ) where
  abbrev pub All : List A → Type κ
  All [] = Unit
  All (x ∷ xs) = P x × All xs

  pub All-append : (xs ys : List A) → All xs → All ys → All (xs ++ ys)
  All-append [] ys _ hy = hy
  All-append (x ∷ xs) ys (px, hx) hy = (px, All-append xs ys hx hy)

  pub All-member : {x : A} (xs : List A) → All xs → Member x xs → P x
  All-member [] _ m = elim m [ ]
  All-member (x ∷ xs) (p, h) here = p
  All-member (x ∷ xs) (p, h) (there m) = All-member xs h m

pub find-true {ℓ} :
    {A : Type ℓ} (p : A → Bool) (xs : List A) {a : A} → find p xs ≡ some a → p a ≡ true
find-true p [] h = cc
find-true p (x ∷ xs) {a} h = ground (arith, find-true p xs {a = a})

pub All-map {ℓ κ μ} :
    {A : Type ℓ} {P : A → Type κ} {Q : A → Type μ} (xs : List A)
    → ((a : A) → P a → Q a)
    → All P xs
    → All Q xs
All-map [] f _ = tt
All-map (x ∷ xs) f (h, hs) = (f x h, All-map xs f hs)

pub All-self {ℓ} : {A : Type ℓ} (xs : List A) → All (λ x. Member x xs) xs
All-self [] = tt
All-self (x ∷ xs) = (here, All-map xs (λ y m. there m) (All-self xs))

-- `keep` where all pass, and what it keeps.
pub keep_same {ℓ} :
    {A : Type ℓ} (p : A → Bool) (xs : List A) → All (λ x. p x ≡ true) xs → keep p xs ≡ xs
keep_same p [] _ = refl
keep_same p (x ∷ xs) (h, hs) = rw h (ap (λ ys. x ∷ ys) (keep_same p xs hs))

pub keep-true {ℓ} : {A : Type ℓ} (p : A → Bool) (xs : List A) → All (λ x. p x ≡ true) (keep p xs)
keep-true p [] = tt
keep-true p (x ∷ xs) = elim (Bool-cases (p x)) [
  | inl e ↦ rw (e, All) (e, keep-true p xs)
  | inr e ↦ rw (e, All) (keep-true p xs)
]

pub keep-keep {ℓ} :
    {A : Type ℓ} (p q : A → Bool) (xs : List A) → keep p (keep q xs) ≡ keep (λ x. q x && p x) xs
keep-keep p q [] = refl
keep-keep p q (x ∷ xs) = elim (Bool-cases (q x)) [
  | inr e ↦ rw e (keep-keep p q xs)
  | inl e ↦ elim (Bool-cases (p x)) [
    | inl e' ↦ rw e (rw e' (ap (λ ys. x ∷ ys) (keep-keep p q xs)))
    | inr e' ↦ rw e (rw e' (keep-keep p q xs))
  ]
]

pub keep-All {ℓ κ} :
    {A : Type ℓ} (P : A → Type κ) (p : A → Bool) (xs : List A) → All P xs → All P (keep p xs)
keep-All P p [] _ = tt
keep-All P p (x ∷ xs) (h, hs) = elim (Bool-cases (p x)) [
  | inl e ↦ rw (e, All) (h, keep-All P p xs hs)
  | inr e ↦ rw (e, All) (keep-All P p xs hs)
]
