-- ===== src/Sdk/Client/State.antt =====
-- The mutable fields of a `ZamaPayClient` with the history of what was sent, and the monad of its
-- methods: what a method has written stays written when it throws.
use zamapay.Prelude.{Option, ◌≡◌, arith}
use zamapay.Js.{Value}
use zamapay.Sdk.Result.{Thrown, Result, ok, throw}
use zamapay.Sdk.Request.{History, Response}

-- `bootstrap` is the settled `bootstrapPromise`.
pub record World : Type 0 where
  pub history : History
  pub project_id : Value
  pub bootstrap : Option (Result Response)

abbrev pub Method : Type 0 → Type 0
Method A = World → Result A × World

infixl 5 ◌>>=◌ ◌>>◌
abbrev pub ◌>>=◌ : {A B : Type 0} → Method A → (A → Method B) → Method B
◌>>=◌ m f w = let (r, w') = m w in elim r [ ok a ↦ f a w' | throw e ↦ (throw e, w') ]

abbrev pub ◌>>◌ : {A B : Type 0} → Method A → Method B → Method B
m >> k = m >>= λ _. k

abbrev pub lift : {A : Type 0} → Result A → Method A
lift r w = (r, w)

module _ {A B : Type 0} (m : Method A) (f : A → Method B) (w : World) where
  -- A bind by how its first part ended.
  pub >>=-throw : {e : Thrown} → (m w).0 ≡ throw e → (m >>= f) w ≡ (throw e, (m w).1)
  >>=-throw h = ground arith

  pub >>=-ok : {a : A} → (m w).0 ≡ ok a → (m >>= f) w ≡ f a (m w).1
  >>=-ok h = ground arith
