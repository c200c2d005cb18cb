-- ===== src/Web/Tests/Withdrawals.antt =====
-- Runs of the merchant's pending withdrawals.
use zamapay.Prelude.{◌≡◌, refl, true, false, none, some, List, [], ◌∷◌, keep, if◌then◌else◌}
use zamapay.Prelude.Text.{Text, lit, str_eq, to_lower, trim, trim_start, is_space, starts_with}
use zamapay.Js.{null, undefined, Value, nil, cons, array, pos, int, member, find_member}
use zamapay.Web.Errors.{ok}
use zamapay.Web.Environment.{normalize_contract_environment}
use zamapay.Web.Decrypt.{
  clear_boolean, as_string, public_decrypt_sepolia_bool, decrypt_from, max_attempts_of,
  attempt_proof, proof_from_result, to_hex_value, public_bool_from_result,
}
use zamapay.Web.Wallet.{ensure_ethereum_provider, ensure_wallet_chain}
use zamapay.Web.Withdraws.{
  PendingWithdraw, Browser, window, withdraw_value, is_withdraw_of, is_pending_project_withdraw,
  all_pending, write_pending, pending_project_withdraws, save_pending, clear_pending,
}
use zamapay.Web.Withdraws.Views.{
  Change, put, delete, Run, done, saved, cleared, view, map_after_all, Run-refines,
}
use zamapay.Web.Withdraws.Verified.{
  Wallet, verify_each, verified_pending, is_verified, verified-accepted,
}

abbrev withdraw_of : Text → PendingWithdraw
withdraw_of handle = record {
  amount_minor_units = int (pos 1500000);
  chain_tx_hash = handle;
  environment = lit "sepolia";
  project_id = lit "p";
  recipient_address = lit "0x9a";
  saved_at = int (pos 1700000000000);
  settlement_bucket_commitment = lit "0xb";
  withdrawal_nonce = lit "0xc";
  withdraw_check_handle = handle;
}

abbrev first_value : Value
unfolding withdraw_value
first_value = withdraw_value (withdraw_of (lit "0x1"))

abbrev second_value : Value
unfolding withdraw_value
second_value = withdraw_value (withdraw_of (lit "0x2"))

-- Texts that stand for lists of up to two withdrawals.
abbrev text_of_values : Value → Text
text_of_values (array nil) = lit "[]"
text_of_values (array (cons v nil)) = lit "[1]"
text_of_values _ = lit "[1,2]"

abbrev values_of_text : Text → Value
values_of_text s =
    if str_eq s (lit "[]")
    then array nil
    else if str_eq s (lit "[1]")
    then array (cons first_value nil)
    else array (cons first_value (cons second_value nil))

abbrev sample_browser : Browser
sample_browser = record {
  json_parse = λ s. some (values_of_text s);
  json_stringify = text_of_values;
  set_item = λ s. ok tt;
}

abbrev sample_changes : List Change
sample_changes = put (withdraw_of (lit "0x1")) ∷ delete (lit "p") (lit "0x1") ∷ []

sample_trace : Run sample_browser (window none) sample_changes (window (some (lit "[]")))
unfolding withdraw_value is_withdraw_of is_pending_project_withdraw all_pending write_pending
    save_pending clear_pending str_eq member find_member
sample_trace =
    saved (withdraw_of (lit "0x1")) (refl, refl) (cleared (lit "p") (lit "0x1") (refl, refl) done)

refines_example :
    view sample_browser (window (some (lit "[]")))
    ≡ map_after_all sample_changes (view sample_browser (window none))
refines_example = Run-refines sample_browser sample_trace

-- The check of the first withdrawal is accepted, that of the second is not.
abbrev sample_wallet : Wallet
sample_wallet = record {
  injected = some (record { answer = λ past request. ok null; code = λ e. undefined });
  chain = record {
    id = 11155111;
    name = lit "Sepolia";
    native_currency = record {
      decimals = 18;
      currency_name = lit "Ether";
      currency_symbol = lit "ETH";
    };
    rpc_urls = [];
    block_explorer_urls = none;
  };
  relayer = λ handle. record {
    sepolia_instance = ok tt;
    public_decrypt = λ attempt. ok (record {
      clear_values = (handle, clear_boolean (str_eq handle (lit "0x1"))) ∷ [];
      abi_encoded = as_string (lit "0x01");
      result_proof = as_string (lit "0x02");
    });
    bytes_to_hex = λ bytes. [];
    is_hex_text = λ s. true;
    big_int = λ s. ok (pos 0);
    decode_bool = λ s. ok false;
    string_of_caught = lit "unknown";
  };
}

accepted_example :
    first_value ∷ []
    ≡ keep
        (is_verified sample_browser sample_wallet (lit "sepolia") (lit "p"))
        (all_pending sample_browser (window (some (lit "[1,2]"))))
unfolding withdraw_value is_withdraw_of is_pending_project_withdraw all_pending write_pending
    save_pending clear_pending pending_project_withdraws verified_pending verify_each
    normalize_contract_environment str_eq member find_member to_lower trim trim_start is_space
    starts_with public_decrypt_sepolia_bool decrypt_from max_attempts_of attempt_proof
    proof_from_result to_hex_value public_bool_from_result ensure_ethereum_provider
    ensure_wallet_chain
accepted_example =
    verified-accepted sample_browser sample_wallet (lit "sepolia") (lit "p")
      (window (some (lit "[1,2]"))) refl refl
