-- ===== src/Prelude/Outcome.antt =====
-- What a call returns, or what it throws.
use mathlib.Core.Path.{◌≡◌, refl, subst}
use mathlib.Core.Logic.{◌⊎◌, inl, inr}
use mathlib.Core.Bool.{Bool, true, false}
use zamapay.Prelude.Tests.{if◌then◌else◌}

pub data Outcome {ℓ} (E : Type 0) (A : Type ℓ) : Type ℓ where
  throw : E → Outcome E A
  ok : A → Outcome E A

-- `if (!test) throw stop`
abbrev pub ensure : {E : Type 0} → Bool → E → Outcome E (Unit {0})
ensure false stop = throw stop
ensure true stop = ok tt

infixl 5 ◌>>=◌ ◌>>◌
abbrev pub ◌>>=◌ {ℓ κ} :
    {E : Type 0} {A : Type ℓ} {B : Type κ} → Outcome E A → (A → Outcome E B) → Outcome E B
throw stop >>= next = throw stop
ok a >>= next = next a

abbrev pub ◌>>◌ {ℓ} : {E : Type 0} {B : Type ℓ} → Outcome E (Unit {0}) → Outcome E B → Outcome E B
first >> second = first >>= λ _. second

-- The steps of a chain that returned `b`: what the first one returned, and that the rest goes on from it.
abbrev pub Chained {ℓ κ} :
    {E : Type 0} {A : Type ℓ} {B : Type κ} → Outcome E A → (A → Outcome E B) → B → Type (ℓ ⊔ κ)
Chained {A = A} first next b = (a : A) × (first ≡ ok a) × (next a ≡ ok b)

pub >>=-eq-ok {ℓ κ} :
    {E : Type 0} {A : Type ℓ} {B : Type κ} (first : Outcome E A) (next : A → Outcome E B) {b : B}
    → (first >>= next) ≡ ok b
    → Chained first next b
>>=-eq-ok (throw stop) next reached = cc
>>=-eq-ok (ok a) next reached = (a, refl, reached)

pub ok-injective {ℓ} :
    {E : Type 0} {A : Type ℓ} {a b : A} → ◌≡◌ {A = Outcome E A} (ok a) (ok b) → a ≡ b
ok-injective h = cc

pub Outcome-cases {ℓ} :
    {E : Type 0} {A : Type ℓ} (m : Outcome E A)
    → ((stop : E) × (m ≡ throw stop)) ⊎ ((a : A) × (m ≡ ok a))
Outcome-cases (throw stop) = inl (stop, refl)
Outcome-cases (ok a) = inr (a, refl)

-- A property of what is returned, if anything is.
abbrev pub Passes {ℓ κ} : {E : Type 0} {A : Type ℓ} → (A → Type κ) → Outcome E A → Type κ
Passes P (throw stop) = Unit
Passes P (ok a) = P a

pub >>=-Passes {ℓ κ μ} :
    {E : Type 0} {A : Type ℓ} {B : Type κ} (P : B → Type μ) (first : Outcome E A)
    (next : A → Outcome E B)
    → ((a : A) → first ≡ ok a → Passes P (next a))
    → Passes P (first >>= next)
>>=-Passes P (throw stop) next passes = tt
>>=-Passes P (ok a) next passes = passes a refl

pub Passes-ok {ℓ κ} :
    {E : Type 0} {A : Type ℓ} (P : A → Type κ) {m : Outcome E A} {a : A}
    → Passes P m
    → m ≡ ok a
    → P a
Passes-ok P passes h = subst (Passes P) h passes

pub if-Passes {ℓ κ} :
    {E : Type 0} {A : Type ℓ} (P : A → Type κ) (test : Bool) (m n : Outcome E A)
    → (test ≡ true → Passes P m)
    → (test ≡ false → Passes P n)
    → Passes P (if test then m else n)
if-Passes P true m n on_true on_false = on_true refl
if-Passes P false m n on_true on_false = on_false refl

pub Passes-map {ℓ κ μ} :
    {E : Type 0} {A : Type ℓ} {P : A → Type κ} {Q : A → Type μ}
    → ((a : A) → P a → Q a)
    → (m : Outcome E A) → Passes P m
    → Passes Q m
Passes-map f (throw stop) passes = tt
Passes-map f (ok a) passes = f a passes

pub ensure-true :
    {E : Type 0} (test : Bool) (stop : E) {u : Unit {0}} → ensure test stop ≡ ok u → test ≡ true
ensure-true true stop h = refl
ensure-true false stop h = cc

pub ensure-Passes {κ} :
    {E : Type 0} (P : Unit {0} → Type κ) (test : Bool) (stop : E)
    → (test ≡ true → P tt)
    → Passes P (ensure test stop)
ensure-Passes P true stop h = h refl
ensure-Passes P false stop h = tt
