-- ===== src/Web/DevSigner/Laws.antt =====
-- What the development key signs, and when.
use zamapay.Prelude.{
  ◌≤◌, ◌<◌, ◌≡◌, refl, ap, ◌∙◌, Bool, true, false, ◌||◌, some, List, [], ◌∷◌, length, ◌==◌, ltb,
  arith, ◌or_use◌, Bool-cases, inl, inr,
}
use zamapay.Prelude.Text.{Text, lit, to_lower, trim, trim_start, is_space, str_eq, starts_with}
use zamapay.Js.{Value, string, undefined, null, boolean, number, bigint, array, object, end}
use zamapay.Web.Errors.{Attempt, ok, throw, Passes, >>=-Passes}
use zamapay.Web.Environment.{
  ContractEnvironment, local_dev, sepolia, normalize_contract_environment,
  public_contract_environment, environment_text,
}
use zamapay.Web.Gates.{is_text, in_production, is_local_request_url, safe_contract_environment}
use zamapay.Web.Gates.Laws.{dev_signer_iff}
use zamapay.Web.Relay.{read_property}
use zamapay.Web.DevSigner.{
  Signer, SignRequest, message_to_sign, is_enabled_at, sign_for, sign_checked, sign_read, sign_if,
  post_sign_message,
}

-- A text that may be signed.
abbrev pub IsSignable : Text → Type 0
IsSignable message = (0 < length message) × (length message ≤ 4096)

not_both : (false ≡ true) → ⊥
not_both h = ground arith

-- The text of an environment names no other.
environment_text-local_dev :
    (environment : ContractEnvironment)
    → safe_contract_environment (some (environment_text environment)) ≡ some local_dev
    → environment ≡ local_dev
unfolding safe_contract_environment normalize_contract_environment to_lower trim trim_start is_space
    str_eq starts_with
environment_text-local_dev local_dev h = refl
environment_text-local_dev sepolia h =
    let found : safe_contract_environment (some (lit "sepolia")) ≡ some sepolia = refl in cc

only_true {ℓ} : {P : Type ℓ} (m : Attempt Bool) → (m ≡ ok true → P) → Passes (λ b. b ≡ true → P) m
only_true (throw e) f = tt
only_true (ok true) f = λ _. f refl
only_true (ok false) f = λ h. elim (not_both h) [ ]

module _ (signer : Signer) (request : SignRequest) where
  -- The development signer is open: its switch is `1`, the process is not in production, the contract
  -- environment is local, and so is the host of the request.
  abbrev pub IsOpen : Type 0
  IsOpen =
      (is_text signer.enable_dev_signer (lit "1") ≡ true)
      × (in_production signer.node_env ≡ false)
      × (public_contract_environment signer.variables ≡ ok local_dev)
      × (is_local_request_url signer.hostname request.url ≡ ok true)

  -- What may be signed: nothing, or, where the signer is open, one text of a fitting length.
  abbrev pub SignsSafely : List Text → Type 0
  SignsSafely [] = Unit
  SignsSafely (message ∷ []) = IsOpen × IsSignable message
  SignsSafely (message ∷ next ∷ messages) = ⊥

  enabled-IsOpen : Passes (λ enabled. enabled ≡ true → IsOpen) (is_enabled_at signer request.url)
  unfolding is_enabled_at
  enabled-IsOpen =
      >>=-Passes _ (public_contract_environment signer.variables) _ λ environment named.
        only_true _ λ allowed.
          let (switch, outside, local, host) = (dev_signer_iff signer.hostname _).0 allowed in
          (switch, outside, named ∙ ap ok (environment_text-local_dev environment local), host)

  sign_for-SignsSafely :
      (message : Text) (address : Attempt Text)
      → IsOpen
      → IsSignable message
      → SignsSafely (sign_for signer message address).1
  sign_for-SignsSafely message (throw e) is_open fits = tt
  sign_for-SignsSafely message (ok address) is_open fits = (is_open, fits)

  checked-SignsSafely :
      (v : Value) → IsOpen → SignsSafely (sign_checked signer (message_to_sign v)).1
  checked-SignsSafely (string s) is_open =
      elim (Bool-cases ((length s == 0) || ltb 4096 (length s))) [
        | inl t ↦ rw t tt
        | inr t ↦ rw t (sign_for-SignsSafely s signer.address is_open (ground arith))
      ]
  checked-SignsSafely undefined is_open = tt
  checked-SignsSafely null is_open = tt
  checked-SignsSafely (boolean b) is_open = tt
  checked-SignsSafely (number n) is_open = tt
  checked-SignsSafely (bigint z) is_open = tt
  checked-SignsSafely (array vs) is_open = tt
  checked-SignsSafely (object ms) is_open = tt

  read-SignsSafely : (read : Attempt Value) → IsOpen → SignsSafely (sign_read signer read).1
  read-SignsSafely (throw e) is_open = tt
  read-SignsSafely (ok v) is_open = checked-SignsSafely v is_open

  if-SignsSafely :
      (enabled : Attempt Bool)
      → Passes (λ enabled. enabled ≡ true → IsOpen) enabled
      → SignsSafely (sign_if signer request enabled).1
  if-SignsSafely (throw e) h = tt
  if-SignsSafely (ok false) h = tt
  if-SignsSafely (ok true) h =
      read-SignsSafely (read_property signer.viem (request.json or_use object end) (lit "message"))
        (h refl)

  -- The route signs nothing, or one text of 1 to 4,096 units where the development signer is open.
  pub post_sign-SignsSafely : SignsSafely (post_sign_message signer request).1
  unfolding post_sign_message
  post_sign-SignsSafely = if-SignsSafely _ enabled-IsOpen
