-- ===== src/Web/Finality.antt =====
-- `runtimeFinalityConfig` of apps/web/lib/runtime-profile.ts with the numbers of
-- env/runtime-profiles.json; `Number` on a text is a parameter.
use zamapay.Prelude.{
  ℕ, ◌≤◌, ◌<◌, ◌≡◌, not, ◌&&◌, Option, none, some, ◌++◌, ltb, leb, arith, if◌then◌else◌, ◌or_try◌,
  ◌==◌,
}
use zamapay.Prelude.Text.{Text, lit, nonempty, trim}
use zamapay.Prelude.Decimal.{decimal}
use zamapay.Js.{Number, int, dyadic, infinite, nan, pos, negsuc, max_safe_integer}
use zamapay.Web.Errors.{
  Attempt, ok, fail, error, ensure, ◌>>=◌, ◌>>◌, Passes, >>=-Passes, if-Passes, Passes-ok,
}
use zamapay.Web.Environment.{ProfileVariables, RuntimeProfileKey, normalize_runtime_profile}

pub record FinalityConfig : Type 0 where
  pub confirmations : ℕ
  pub finality_threshold : ℕ

pub record FinalityVariables : Type 0 where
  pub profile : ProfileVariables
  pub confirmations_raw : Option Text
  pub finality_threshold_raw : Option Text

-- Every profile of the document has the same two numbers.
abbrev pub profile_confirmations : RuntimeProfileKey → ℕ
profile_confirmations key = 2

abbrev pub profile_finality_threshold : RuntimeProfileKey → ℕ
profile_finality_threshold key = 2

module _ (to_number : Text → Number) where
  abbrev positive : Number → Text → Attempt ℕ
  positive (int (pos n)) name =
      if leb n max_safe_integer && not (n == 0)
      then ok n
      else fail (name ++ lit " must be a positive safe integer.")
  positive _ name = fail (name ++ lit " must be a positive safe integer.")

  unfoldable pub positive_integer : Option Text → ℕ → Text → Attempt ℕ
  positive_integer none fallback name = ok fallback
  positive_integer (some raw) fallback name =
      if nonempty (trim raw) then positive (to_number raw) name else ok fallback

  unfoldable pub runtime_finality_config : FinalityVariables → Attempt FinalityConfig
  runtime_finality_config vars = do
    key ←
        normalize_runtime_profile vars.profile
          (vars.profile.zamapay_runtime_profile or_try vars.profile.next_public_runtime_profile)
    confirmations ←
        positive_integer vars.confirmations_raw (profile_confirmations key) (lit "CONFIRMATIONS")
    threshold ←
        positive_integer vars.finality_threshold_raw (profile_finality_threshold key)
          (lit "FINALITY_THRESHOLD")
    ensure (not (ltb confirmations threshold)) (
        error (
          lit "CONFIRMATIONS ("
          ++ decimal confirmations
          ++ lit ") must be >= FINALITY_THRESHOLD ("
          ++ decimal threshold
          ++ lit ")."))
    ok (record { confirmations = confirmations; finality_threshold = threshold })

  -- A configuration that can be used.
  abbrev pub IsUsable : FinalityConfig → Type 0
  IsUsable config =
      (0 < config.finality_threshold)
      × (config.finality_threshold ≤ config.confirmations)
      × (config.confirmations ≤ max_safe_integer)

  abbrev IsPositive : ℕ → Type 0
  IsPositive n = (0 < n) × (n ≤ max_safe_integer)

  positive-IsPositive : (n : Number) (name : Text) → Passes IsPositive (positive n name)
  positive-IsPositive (int (pos n)) name =
      if-Passes IsPositive (leb n max_safe_integer && not (n == 0)) _ _ (λ t. ground arith) λ _. tt
  positive-IsPositive (int (negsuc n)) name = tt
  positive-IsPositive (dyadic minus m k) name = tt
  positive-IsPositive (infinite minus) name = tt
  positive-IsPositive nan name = tt

  positive_integer-IsPositive :
      (raw : Option Text) (fallback : ℕ) (name : Text)
      → IsPositive fallback
      → Passes IsPositive (positive_integer raw fallback name)
  unfolding positive_integer
  positive_integer-IsPositive none fallback name h = h
  positive_integer-IsPositive (some raw) fallback name h =
      if-Passes IsPositive (nonempty (trim raw)) _ _ (λ _. positive-IsPositive (to_number raw) name)
        λ _. h

  finality_config-Passes :
      (vars : FinalityVariables) → Passes IsUsable (runtime_finality_config vars)
  unfolding runtime_finality_config
  finality_config-Passes vars = >>=-Passes _ (normalize_runtime_profile vars.profile _) _ λ key _.
      >>=-Passes _ (positive_integer vars.confirmations_raw _ _) _ λ confirmations e₁.
        >>=-Passes _ (positive_integer vars.finality_threshold_raw _ _) _ λ threshold e₂.
          let (_, bound) =
            Passes-ok IsPositive
              (positive_integer-IsPositive vars.confirmations_raw 2 (lit "CONFIRMATIONS")
                (omega arith, omega arith))
              e₁ in
          let (least, _) =
            Passes-ok IsPositive
              (positive_integer-IsPositive vars.finality_threshold_raw 2 (lit "FINALITY_THRESHOLD")
                (omega arith, omega arith))
              e₂ in
          >>=-Passes _ (ensure (not (ltb confirmations threshold)) _) _
            λ u e₃. (least, ground arith, bound)

  -- The configuration that the server runs with has a positive threshold, and confirmations that are
  -- not below it and are a safe integer.
  pub finality_config-IsUsable :
      (vars : FinalityVariables) {config : FinalityConfig}
      → runtime_finality_config vars ≡ ok config
      → IsUsable config
  finality_config-IsUsable vars h = Passes-ok IsUsable (finality_config-Passes vars) h
