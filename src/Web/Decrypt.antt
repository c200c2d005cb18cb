-- ===== src/Web/Decrypt.antt =====
-- `publicDecryptSepoliaBool` of apps/web/lib/zama-relayer-browser.ts: the public decryption of a
-- Boolean with its retries. The relayer is a parameter: what the promise of its instance comes to, and
-- what it answers by the number of the attempt; what viem does with bytes is one too.
pub mod Laws
use zamapay.Prelude.{
  ℕ, zero, suc, ◌+◌, ◌-◌, Bool, true, false, ◌&&◌, not, Option, none, some, List, [], ◌∷◌, ◌++◌,
  ◌or_use◌, ◌or_try◌, find, any, if◌then◌else◌,
}
use zamapay.Prelude.Text.{Text, lit, str_eq, to_lower, includes}
use zamapay.Js.{ℤ, pos, negsuc}
use zamapay.Web.Errors.{
  Failure, Attempt, ok, throw, fail, error, error_message, ensure, ◌>>=◌, ◌>>◌,
}

-- A value that the relayer gives as text or as bytes.
pub data HexLike : Type 0 where
  as_string : Text → HexLike
  as_bytes : List ℕ → HexLike

pub data ClearValue : Type 0 where
  clear_boolean : Bool → ClearValue
  clear_bigint : ℤ → ClearValue
  clear_string : Text → ClearValue

pub record RelayerResult : Type 0 where
  pub clear_values : List (Text × ClearValue)
  pub abi_encoded : HexLike
  pub result_proof : HexLike

pub record PublicBoolProof : Type 0 where
  pub accepted : Bool
  pub abi_encoded_clear_values : Text
  pub decryption_proof : Text

pub record Relayer : Type 0 where
  pub sepolia_instance : Attempt (Unit {0})
  pub public_decrypt : ℕ → Attempt RelayerResult
  pub bytes_to_hex : List ℕ → Text
  pub is_hex_text : Text → Bool
  pub big_int : Text → Attempt ℤ
  pub decode_bool : Text → Attempt Bool
  pub string_of_caught : Text

-- What a decryption does, the latest first: attempts, reports of a retry, and waits in milliseconds.
pub data Act : Type 0 where
  asked : ℕ → Act
  reported : (max_attempts next_attempt : ℕ) → Act
  waited : ℕ → Act

abbrev pub default_public_decrypt_retries : ℤ
default_public_decrypt_retries = pos 6

abbrev pub default_public_decrypt_retry_delay_ms : ℕ
default_public_decrypt_retry_delay_ms = 2500

abbrev pub transient_public_decrypt_errors : List Text
transient_public_decrypt_errors =
    lit "not allowed for public decryption"
    ∷ lit "not found"
    ∷ lit "not ready"
    ∷ lit "not yet"
    ∷ lit "not available"
    ∷ []

-- `Math.max(1, Math.floor(retries) + 1)` for whole retries
abbrev pub attempts_for : ℤ → ℕ
attempts_for (pos n) = n + 1
attempts_for (negsuc n) = 1

unfoldable pub max_attempts_of : Option ℤ → ℕ
max_attempts_of retries = attempts_for (retries or_use default_public_decrypt_retries)

module _ (relayer : Relayer) where
  abbrev pub hex_of : HexLike → Text
  hex_of (as_string s) = s
  hex_of (as_bytes bytes) = relayer.bytes_to_hex bytes

  unfoldable pub to_hex_value : HexLike → Text → Attempt Text
  to_hex_value v label =
      if relayer.is_hex_text (hex_of v)
      then ok (hex_of v)
      else fail (label ++ lit " is not a hex value.")

  abbrev pub is_nonzero : ℤ → Bool
  is_nonzero (pos zero) = false
  is_nonzero _ = true

  unfoldable pub public_bool_from_result : Text → Option ClearValue → Attempt Bool
  public_bool_from_result abi (some (clear_boolean b)) = ok b
  public_bool_from_result abi (some (clear_bigint z)) = ok (is_nonzero z)
  public_bool_from_result abi (some (clear_string s)) = do z ← relayer.big_int s; ok (is_nonzero z)
  public_bool_from_result abi none = relayer.decode_bool abi

  abbrev pub clear_value : List (Text × ClearValue) → Text → Option ClearValue
  clear_value entries handle = elim (find (λ entry. str_eq entry.0 handle) entries) [
    | none ↦ none
    | some entry ↦ some entry.1
  ]

  unfoldable pub proof_from_result : Text → RelayerResult → Attempt PublicBoolProof
  unfolding to_hex_value public_bool_from_result
  proof_from_result handle result = do
    let clear =
        clear_value result.clear_values handle
        or_try clear_value result.clear_values (to_lower handle)
    abi ← to_hex_value result.abi_encoded (lit "ABI-encoded public decrypt value")
    value ← public_bool_from_result abi clear
    proof ← to_hex_value result.result_proof (lit "public decrypt proof")
    ok (record { accepted = value; abi_encoded_clear_values = abi; decryption_proof = proof })

  -- The message of the normalised error.
  abbrev pub message_of : Failure → Text
  message_of e = error_message e or_use relayer.string_of_caught

  unfoldable pub is_transient : Failure → Bool
  is_transient e =
      any (λ marker. includes (to_lower (message_of e)) marker) transient_public_decrypt_errors

  -- One round of the `try` block.
  unfoldable pub attempt_proof : Text → ℕ → Attempt PublicBoolProof
  unfolding proof_from_result
  attempt_proof handle attempt = do
    result ← relayer.public_decrypt attempt
    proof_from_result handle result

  -- The rest of the loop, by the rounds left after this one.
  unfoldable pub decrypt_from : Text → ℕ → ℕ → ℕ → List Act → Attempt PublicBoolProof × List Act
  decrypt_from handle delay zero attempt past = (attempt_proof handle attempt, asked attempt ∷ past)
  decrypt_from handle delay (suc left) attempt past = elim (attempt_proof handle attempt) [
    | ok proof ↦ (ok proof, asked attempt ∷ past)
    | throw e ↦
        if is_transient e
        then decrypt_from handle delay left (attempt + 1)
            (waited delay ∷ reported (attempt + suc left) (attempt + 1) ∷ asked attempt ∷ past)
        else (throw e, asked attempt ∷ past)
  ]

  -- The body after `await sepoliaInstance(input.provider)`, whose rejection is the caller's.
  abbrev pub once_instance :
      Attempt (Unit {0}) → Text → Option ℤ → Option ℕ → Attempt PublicBoolProof × List Act
  once_instance (throw e) handle retries delay = (throw e, [])
  once_instance (ok _) handle retries delay =
      decrypt_from handle (delay or_use default_public_decrypt_retry_delay_ms)
        (max_attempts_of retries - 1) 1 []

  unfoldable pub public_decrypt_sepolia_bool :
      Text → Option ℤ → Option ℕ → Attempt PublicBoolProof × List Act
  unfolding max_attempts_of decrypt_from attempt_proof is_transient
  public_decrypt_sepolia_bool handle retries delay =
      once_instance relayer.sepolia_instance handle retries delay
