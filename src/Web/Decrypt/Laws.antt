-- ===== src/Web/Decrypt/Laws.antt =====
-- The retries of the public decryption: how often the relayer is asked, and when it is given up.
use zamapay.Prelude.{
  ℕ, zero, suc, ◌+◌, ◌-◌, ◌≤◌, ◌<◌, ◌≡◌, refl, ap, subst, sym, ◌∙◌, true, Option, List, [], ◌∷◌,
  arith, ◌or_use◌,
}
use zamapay.Prelude.Text.{Text}
use zamapay.Js.{ℤ}
use zamapay.Web.Errors.{Attempt, Failure, ok, throw}
use zamapay.Web.Decrypt.{
  PublicBoolProof, Relayer, Act, asked, reported, waited, default_public_decrypt_retry_delay_ms,
  max_attempts_of, is_transient, attempt_proof, decrypt_from, once_instance,
  public_decrypt_sepolia_bool,
}

-- How often the relayer was asked.
abbrev pub asks : List Act → ℕ
asks [] = 0
asks (asked n ∷ acts) = suc (asks acts)
asks (reported m n ∷ acts) = asks acts
asks (waited n ∷ acts) = asks acts

module _ (relayer : Relayer) (handle : Text) where
  -- The attempt fails in a way that is worth another one.
  abbrev pub FailsTransiently : ℕ → Type 0
  FailsTransiently attempt =
      (e : Failure) × (attempt_proof relayer handle attempt ≡ throw e)
      × (is_transient relayer e ≡ true)

  decrypt_from-asks :
      (delay left attempt : ℕ) (past : List Act)
      → (suc (asks past) ≤ asks (decrypt_from relayer handle delay left attempt past).1)
        × (asks (decrypt_from relayer handle delay left attempt past).1 ≤ asks past + left + 1)
  unfolding decrypt_from
  decrypt_from-asks delay zero attempt past = (omega arith, omega arith)
  decrypt_from-asks delay (suc left) attempt past = ground (
    arith,
    decrypt_from-asks delay left (attempt + 1)
        (waited delay ∷ reported (attempt + suc left) (attempt + 1) ∷ asked attempt ∷ past),
  )

  decrypt_from-reaches :
      (delay left k attempt : ℕ) (past : List Act) {proof : PublicBoolProof}
      → k ≤ left
      → ((i : ℕ) → i < k → FailsTransiently (attempt + i))
      → attempt_proof relayer handle (attempt + k) ≡ ok proof
      → (decrypt_from relayer handle delay left attempt past).0 ≡ ok proof
  unfolding decrypt_from
  decrypt_from-reaches delay zero zero attempt past h fails e =
      ap (attempt_proof relayer handle) {x = attempt} {y = attempt + 0} (omega arith) ∙ e
  decrypt_from-reaches delay (suc left) zero attempt past h fails e =
      let now =
        ap (attempt_proof relayer handle) {x = attempt} {y = attempt + 0} (omega arith) ∙ e in
      rw (now, decrypt_from) refl
  decrypt_from-reaches delay zero (suc k) attempt past h fails e = elim h [ ]
  decrypt_from-reaches delay (suc left) (suc k) attempt past h fails e =
      let (stop, failed, transient) = fails 0 (omega arith) in
      let now =
        ap (attempt_proof relayer handle) {x = attempt} {y = attempt + 0} (omega arith) ∙ failed in
      rw (now, transient, decrypt_from)
        (decrypt_from-reaches delay left k (attempt + 1) _ (omega arith)
          (λ i below.
            subst FailsTransiently {x = attempt + suc i} (omega arith)
              (fails (suc i) (omega arith)))
          (ap (attempt_proof relayer handle) {y = attempt + suc k} (omega arith) ∙ e))

  -- A transient failure is thrown only when all rounds were used.
  decrypt_from-gives_up :
      (delay left attempt : ℕ) (past : List Act) {stop : Failure}
      → (decrypt_from relayer handle delay left attempt past).0 ≡ throw stop
      → is_transient relayer stop ≡ true
      → asks (decrypt_from relayer handle delay left attempt past).1 ≡ asks past + left + 1
  unfolding decrypt_from
  decrypt_from-gives_up delay zero attempt past h t = omega arith
  decrypt_from-gives_up delay (suc left) attempt past {stop = stop} h t = ground (
    arith,
    decrypt_from-gives_up delay left (attempt + 1)
        (waited delay ∷ reported (attempt + suc left) (attempt + 1) ∷ asked attempt ∷ past)
        {stop = stop},
  )

  -- The rounds that the loop has are the attempts allowed.
  rounds : (retries : Option ℤ) → 0 + (max_attempts_of retries - 1) + 1 ≡ max_attempts_of retries
  unfolding max_attempts_of
  rounds retries = ground arith

  ready-decrypt :
      (retries : Option ℤ) (delay : Option ℕ)
      → relayer.sepolia_instance ≡ ok tt
      → public_decrypt_sepolia_bool relayer handle retries delay
        ≡ decrypt_from relayer handle
            (delay or_use default_public_decrypt_retry_delay_ms)
            (max_attempts_of retries - 1)
            1
            []
  unfolding public_decrypt_sepolia_bool
  ready-decrypt retries delay ready =
      ap (λ made. once_instance relayer made handle retries delay) ready

  -- How many asks fit what the instance came to: none without one, and otherwise one at least and
  -- the attempts allowed at most.
  abbrev pub AsksFit : Attempt (Unit {0}) → ℕ → ℕ → Type 0
  AsksFit (throw e) maximum n = n ≡ 0
  AsksFit (ok _) maximum n = (1 ≤ n) × (n ≤ maximum)

  once_instance-AsksFit :
      (made : Attempt (Unit {0})) (retries : Option ℤ) (delay : Option ℕ)
      → AsksFit made
          (max_attempts_of retries)
          (asks (once_instance relayer made handle retries delay).1)
  once_instance-AsksFit (throw e) retries delay = refl
  once_instance-AsksFit (ok _) retries delay =
      let wait = delay or_use default_public_decrypt_retry_delay_ms in
      let (least, most) = decrypt_from-asks wait (max_attempts_of retries - 1) 1 [] in
      (
        least,
        subst
            (λ n. asks (decrypt_from relayer handle wait (max_attempts_of retries - 1) 1 []).1 ≤ n)
            (rounds retries) most,
      )

  -- The relayer is not asked where its instance could not be made; where it was made, the relayer is
  -- asked at least once and at most `maxAttempts` times.
  pub decrypt-asks :
      (retries : Option ℤ) (delay : Option ℕ)
      → AsksFit relayer.sepolia_instance
          (max_attempts_of retries)
          (asks (public_decrypt_sepolia_bool relayer handle retries delay).1)
  unfolding public_decrypt_sepolia_bool
  decrypt-asks retries delay = once_instance-AsksFit relayer.sepolia_instance retries delay

  -- Where the instance was made, all attempts before one of those allowed fail transiently and that one
  -- gives a proof, the call returns it.
  pub decrypt-reaches :
      (retries : Option ℤ) (delay : Option ℕ) (k : ℕ) {proof : PublicBoolProof}
      → relayer.sepolia_instance ≡ ok tt
      → k < max_attempts_of retries
      → ((i : ℕ) → i < k → FailsTransiently (1 + i))
      → attempt_proof relayer handle (1 + k) ≡ ok proof
      → (public_decrypt_sepolia_bool relayer handle retries delay).0 ≡ ok proof
  decrypt-reaches retries delay k ready h fails e = rw (ready-decrypt retries delay ready) (
      decrypt_from-reaches (delay or_use default_public_decrypt_retry_delay_ms)
        (max_attempts_of retries - 1) k 1 [] (omega arith) fails e)

  -- Where the instance was made, a transient failure is thrown only after all attempts allowed.
  pub decrypt-gives_up :
      (retries : Option ℤ) (delay : Option ℕ) {stop : Failure}
      → relayer.sepolia_instance ≡ ok tt
      → (public_decrypt_sepolia_bool relayer handle retries delay).0 ≡ throw stop
      → is_transient relayer stop ≡ true
      → asks (public_decrypt_sepolia_bool relayer handle retries delay).1 ≡ max_attempts_of retries
  decrypt-gives_up retries delay ready h t =
      let same = ready-decrypt retries delay ready in
      ap (λ outcome. asks outcome.1) same
      ∙ decrypt_from-gives_up (delay or_use default_public_decrypt_retry_delay_ms)
          (max_attempts_of retries - 1) 1 [] (ap (λ outcome. outcome.0) (sym same) ∙ h) t
      ∙ rounds retries
