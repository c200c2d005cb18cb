-- ===== src/Web/Tests/Decryption.antt =====
-- Runs of the public decryption and of the finality settings.
use zamapay.Prelude.{
  ℕ, ◌+◌, ◌≡◌, ◌<◌, refl, true, false, none, some, [], ◌∷◌, ◌==◌, if◌then◌else◌, arith, zero, suc,
}
use zamapay.Prelude.Text.{lit, str_eq, to_lower, includes, trim, trim_start, is_space, starts_with}
use zamapay.Js.{pos, negsuc, int}
use zamapay.Web.Errors.{ok, fail, error}
use zamapay.Web.Environment.{normalize_runtime_profile, profile_of_key}
use zamapay.Web.Finality.{
  FinalityVariables, IsUsable, positive_integer, runtime_finality_config, finality_config-IsUsable,
}
use zamapay.Web.Decrypt.{
  as_string, clear_boolean, RelayerResult, PublicBoolProof, Relayer, max_attempts_of, is_transient,
  attempt_proof, decrypt_from, public_decrypt_sepolia_bool, proof_from_result, to_hex_value,
  public_bool_from_result,
}
use zamapay.Web.Decrypt.Laws.{
  asks, AsksFit, FailsTransiently, decrypt-asks, decrypt-reaches, decrypt-gives_up,
}

abbrev sample_result : RelayerResult
sample_result = record {
  clear_values = (lit "0xab", clear_boolean true) ∷ [];
  abi_encoded = as_string (lit "0x01");
  result_proof = as_string (lit "0x02");
}

-- A relayer that is ready from an attempt on.
abbrev relayer_from : ℕ → Relayer
relayer_from ready = record {
  sepolia_instance = ok tt;
  public_decrypt =
      λ attempt. if attempt == ready then ok sample_result else fail (lit "Handle is not ready");
  bytes_to_hex = λ bytes. [];
  is_hex_text = λ s. starts_with s (lit "0x");
  big_int = λ s. ok (pos 0);
  decode_bool = λ s. ok false;
  string_of_caught = lit "unknown";
}

abbrev sample_proof : PublicBoolProof
sample_proof = record {
  accepted = true;
  abi_encoded_clear_values = lit "0x01";
  decryption_proof = lit "0x02";
}

asks_example :
    AsksFit
      (relayer_from 2)
      (lit "0xAB")
      (ok tt)
      (max_attempts_of (some (pos 3)))
      (asks (public_decrypt_sepolia_bool (relayer_from 2) (lit "0xAB") (some (pos 3)) none).1)
asks_example = decrypt-asks (relayer_from 2) (lit "0xAB") (some (pos 3)) none

first_fails : (i : ℕ) → i < 1 → FailsTransiently (relayer_from 2) (lit "0xAB") (1 + i)
unfolding attempt_proof is_transient to_lower includes starts_with
first_fails zero h = (error (lit "Handle is not ready"), refl, refl)
first_fails (suc i) h = ground arith

reaches_example :
    (public_decrypt_sepolia_bool (relayer_from 2) (lit "0xAB") (some (pos 3)) none).0
    ≡ ok sample_proof
unfolding attempt_proof proof_from_result to_hex_value public_bool_from_result is_transient to_lower
    includes starts_with str_eq max_attempts_of
reaches_example =
    decrypt-reaches (relayer_from 2) (lit "0xAB") (some (pos 3)) none 1 refl (omega arith)
      first_fails refl

gives_up_example :
    asks (public_decrypt_sepolia_bool (relayer_from 9) (lit "0xAB") (some (negsuc 0)) none).1
    ≡ max_attempts_of (some (negsuc 0))
unfolding attempt_proof proof_from_result to_hex_value public_bool_from_result is_transient to_lower
    includes starts_with str_eq max_attempts_of public_decrypt_sepolia_bool decrypt_from
gives_up_example =
    decrypt-gives_up (relayer_from 9) (lit "0xAB") (some (negsuc 0)) none refl refl refl

abbrev sample_variables : FinalityVariables
sample_variables = record {
  profile = record { zamapay_runtime_profile = none; next_public_runtime_profile = none };
  confirmations_raw = some (lit "12");
  finality_threshold_raw = none;
}

finality_example :
    IsUsable (λ s. int (pos 12)) (record { confirmations = 12; finality_threshold = 2 })
unfolding runtime_finality_config positive_integer normalize_runtime_profile profile_of_key trim
    trim_start is_space str_eq to_lower starts_with
finality_example = finality_config-IsUsable (λ s. int (pos 12)) sample_variables refl
