-- ===== src/Web/Withdraws/Verified.antt =====
-- `verifiedPendingProjectWithdraws`: the pending withdrawals whose encrypted check was accepted; the
-- rejected ones are cleared.
use zamapay.Prelude.{
  Option, ◌≡◌, sym, ap, ◌∙◌, Bool, true, false, some, none, List, [], ◌∷◌, keep, inl, inr, not,
  ◌||◌, ◌&&◌, Bool-cases, keep-keep,
}
use zamapay.Prelude.Text.{Text, lit, nonempty}
use zamapay.Js.{Value, string, member, pos}
use zamapay.Web.Errors.{Attempt, ok, throw, ◌>>=◌, >>=-eq-ok, ok-injective, Outcome-cases}
use zamapay.Web.Environment.{
  ContractEnvironment, local_dev, sepolia, normalize_contract_environment,
}
use zamapay.Web.Decrypt.{Relayer, public_decrypt_sepolia_bool}
use zamapay.Web.Wallet.{Provider, WalletChain, ensure_ethereum_provider, ensure_wallet_chain}
use zamapay.Web.Withdraws.{
  Browser, Page, has_text, all_pending, pending_project_withdraws, clear_pending,
}

abbrev pub text_of : Value → Text
text_of (string s) = s
text_of _ = []

-- The wallet that the page has, the Sepolia chain, and what the relayer answers about a handle.
pub record Wallet : Type 0 where
  pub injected : Option Provider
  pub chain : WalletChain
  pub relayer : Text → Relayer

module _ (browser : Browser) (wallet : Wallet) where
  -- The wallet is on the chain.
  abbrev pub wallet_ready : Attempt (Unit {0})
  wallet_ready = do
    provider ← ensure_ethereum_provider wallet.injected
    (ensure_wallet_chain provider wallet.chain []).0

  -- Whether the check of a withdrawal is accepted, with ten retries.
  abbrev pub proof_of : Value → Attempt Bool
  proof_of w = do
    let handle = text_of (member w (lit "withdrawCheckHandle"))
    proof ← (public_decrypt_sepolia_bool (wallet.relayer handle) handle (some (pos 10)) none).0
    ok proof.accepted

  abbrev also : Value → Attempt (List Value) × Page → Attempt (List Value) × Page
  also w (accepted, page) = (do ws ← accepted; ok (w ∷ ws), page)

  abbrev clear : Value → Page → Attempt (Unit {0}) × Page
  clear w page =
      clear_pending browser (text_of (member w (lit "projectId")))
        (text_of (member w (lit "chainTxHash"))) page

  -- The loop over the pending withdrawals.
  unfoldable pub verify_each : List Value → Page → Attempt (List Value) × Page
  verify_each [] page = (ok [], page)
  verify_each (w ∷ ws) page = elim (proof_of w) [
    | throw e ↦ (throw e, page)
    | ok true ↦ also w (verify_each ws page)
    | ok false ↦ elim (clear w page).0 [
      | throw e ↦ (throw e, (clear w page).1)
      | ok _ ↦ verify_each ws (clear w page).1
    ]
  ]

  -- The pending withdrawals of the project in the environment.
  abbrev pub pending_in : Text → Text → Page → List Value
  pending_in environment project page =
      keep (has_text (lit "environment") environment)
        (pending_project_withdraws browser page project)

  abbrev once_ready : Attempt (Unit {0}) → List Value → Page → Attempt (List Value) × Page
  once_ready (throw e) pending page = (throw e, page)
  once_ready (ok _) pending page = verify_each pending page

  abbrev verify_on : Attempt ContractEnvironment → List Value → Page → Attempt (List Value) × Page
  verify_on (throw e) pending page = (throw e, page)
  verify_on (ok local_dev) pending page = (ok [], page)
  verify_on (ok sepolia) pending page = once_ready wallet_ready pending page

  abbrev verify_some : Text → List Value → Page → Attempt (List Value) × Page
  verify_some environment [] page = (ok [], page)
  verify_some environment (w ∷ ws) page =
      verify_on (normalize_contract_environment (some environment)) (w ∷ ws) page

  unfoldable pub verified_pending : Text → Text → Page → Attempt (List Value) × Page
  unfolding verify_each
  verified_pending environment project page =
      verify_some environment (pending_in environment project page) page

  abbrev pub is_accepted : Value → Bool
  is_accepted w = elim (proof_of w) [ throw e ↦ false | ok accepted ↦ accepted ]

  verify_each-accepted :
      (ws : List Value) (page : Page) {accepted : List Value}
      → (verify_each ws page).0 ≡ ok accepted
      → keep is_accepted ws ≡ accepted
  unfolding verify_each
  verify_each-accepted [] page h = ok-injective h
  verify_each-accepted (w ∷ ws) page {accepted = accepted} h = elim (Outcome-cases (proof_of w)) [
    | inl (e, p) ↦ let stuck : throw e ≡ ok accepted = rw (p, verify_each) at h in cc
    | inr (true, p) ↦
        let (rest, e, e') = >>=-eq-ok (verify_each ws page).0 _ (rw (p, verify_each) at h) in
        rw (p, is_accepted) (ap (λ vs. w ∷ vs) (verify_each-accepted ws page e) ∙ ok-injective e')
    | inr (false, p) ↦ elim (Outcome-cases (clear w page).0) [
      | inl (e, q) ↦ let stuck : throw e ≡ ok accepted = rw (p, q, verify_each) at h in cc
      | inr (u, q) ↦
          rw (p, is_accepted)
            (verify_each-accepted ws (clear w page).1 (rw (p, q, verify_each) at h))
    ]
  ]

  once_ready-accepted :
      (answer : Attempt (Unit {0})) (ws : List Value) (page : Page) {accepted : List Value}
      → (once_ready answer ws page).0 ≡ ok accepted
      → keep is_accepted ws ≡ accepted
  once_ready-accepted (throw e) ws page h = cc
  once_ready-accepted (ok _) ws page h = verify_each-accepted ws page h

  verify_on-accepted :
      (environment : Attempt ContractEnvironment) (ws : List Value) (page : Page)
      {accepted : List Value}
      → (verify_on environment ws page).0 ≡ ok accepted
      → environment ≡ ok sepolia
      → keep is_accepted ws ≡ accepted
  verify_on-accepted (throw e) ws page h s = cc
  verify_on-accepted (ok local_dev) ws page h s = cc
  verify_on-accepted (ok sepolia) ws page h s = once_ready-accepted wallet_ready ws page h

  verify_some-accepted :
      (environment : Text) (ws : List Value) (page : Page) {accepted : List Value}
      → (verify_some environment ws page).0 ≡ ok accepted
      → normalize_contract_environment (some environment) ≡ ok sepolia
      → keep is_accepted ws ≡ accepted
  verify_some-accepted environment [] page h s = ok-injective h
  verify_some-accepted environment (w ∷ ws) page h s =
      verify_on-accepted (normalize_contract_environment (some environment)) (w ∷ ws) page h s

  -- A stored withdrawal to return: of the environment, of the project where one is named, and with an
  -- accepted check.
  abbrev pub is_verified : Text → Text → Value → Bool
  is_verified environment project w =
      ((not (nonempty project) || has_text (lit "projectId") project w)
        && has_text (lit "environment") environment w)
      && is_accepted w

  project-keep :
      (environment project : Text) (page : Page)
      → keep is_accepted (pending_in environment project page)
        ≡ keep (is_verified environment project) (all_pending browser page)
  unfolding pending_project_withdraws
  project-keep environment project page =
      let all = all_pending browser page in
      let in_environment = has_text (lit "environment") environment in
      elim (Bool-cases (nonempty project)) [
        | inl e ↦
            let in_project = has_text (lit "projectId") project in
            rw (e, is_verified)
              (ap (keep is_accepted) (keep-keep in_environment in_project all)
                ∙ keep-keep is_accepted (λ w. in_project w && in_environment w) all)
        | inr e ↦ rw (e, is_verified) (keep-keep is_accepted in_environment all)
      ]

  -- On Sepolia what is returned is those of the stored pending withdrawals that are of the
  -- environment, of the project where one is named, and have a check that decrypts to accepted, in
  -- their order.
  pub verified-accepted :
      (environment project : Text) (page : Page) {accepted : List Value}
      → normalize_contract_environment (some environment) ≡ ok sepolia
      → (verified_pending environment project page).0 ≡ ok accepted
      → accepted ≡ keep (is_verified environment project) (all_pending browser page)
  unfolding verified_pending
  verified-accepted environment project page s h =
      sym (verify_some-accepted environment (pending_in environment project page) page h s)
      ∙ project-keep environment project page
