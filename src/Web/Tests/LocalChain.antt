-- ===== src/Web/Tests/LocalChain.antt =====
-- Runs of the routes of the development server.
use zamapay.Prelude.{◌≡◌, ◌≤◌, refl, true, none, some, [], ◌++◌, All, length, replicate}
use zamapay.Prelude.Text.{Text, lit, str_eq, to_lower, trim, trim_start, is_space, starts_with}
use zamapay.Js.{Members, string, number, int, pos, object, end, property, member, find_member}
use zamapay.Web.Errors.{ok, fail}
use zamapay.Web.LocalWithdraw.{
  WithdrawServer, WithdrawRequest, post_withdraw, withdraw_after_gate, submit_withdraw,
  prepare_withdraw, sign_withdraw, withdraw_fields, can_submit_local_evm_withdraw,
  local_withdraw_authorizer_private_key, required_safe_integer,
}
use zamapay.Web.PrivateWithdraw.{
  PrivateServer, PrivateRequest, post_private_withdraw, is_private_enabled, private_withdraw_of,
  required_hex, required_account, required_deadline,
}
use zamapay.Web.Finalize.{server_contract_environment}
use zamapay.Web.Gates.{
  can_use_local_dev_server_bridge, safe_contract_environment, is_local_request_url,
}
use zamapay.Web.Environment.{
  public_contract_environment, contract_environment_from_runtime_profile, normalize_runtime_profile,
  profile_of_key, normalize_contract_environment,
}
use zamapay.Web.LocalWithdraw.Laws.{IsSigned, post_withdraw-IsSigned, post_withdraw-production}
use zamapay.Web.Relay.{read_property, required_address, required_bytes32}

abbrev server_in : Text → WithdrawServer
server_in mode = record {
  variables = record { zamapay_runtime_profile = none; next_public_runtime_profile = none };
  node_env = some mode;
  authorizer_key = none;
  submitter_key = none;
  hostname = λ url. ok (lit "localhost");
  viem = record {
    is_address = λ s. true;
    get_address = λ s. ok s;
    hex_to_signature = λ s. fail s;
    cannot_read = λ k. k;
  };
  account_of = λ key. ok (lit "0xacc");
  block_timestamp = ok 1700000000;
  random_bytes32 = lit "0xr";
  sign_typed_data = λ key message. ok (lit "0xs");
  write_contract = λ key call. ok (lit "0xhash");
  wait_for_receipt = λ hash. ok tt;
}

abbrev withdraw_request : WithdrawRequest
withdraw_request = record {
  url = lit "http://localhost:3001/api/dev/local-evm-withdraw";
  json = some (
      object (
        property (lit "amountMinorUnits") (number (int (pos 1500000))) (
          property (lit "chainId") (number (int (pos 31337))) (
            property (lit "recipientAddress") (string (lit "0x9a")) (
              property (lit "settlementContract") (string (lit "0x5e")) (
                property (lit "settlementProjectId") (string (lit "0x" ++ replicate 64 b'7'))
                  (property (lit "tokenContract") (string (lit "0x70")) end)))))));
}

local_withdraw_example :
    All
      (IsSigned (server_in (lit "development")) withdraw_request)
      (post_withdraw (server_in (lit "development")) withdraw_request).1
    × (length (post_withdraw (server_in (lit "development")) withdraw_request).1 ≤ 1)
local_withdraw_example = post_withdraw-IsSigned (server_in (lit "development")) withdraw_request

closed_example : (post_withdraw (server_in (lit "production")) withdraw_request).1 ≡ []
unfolding str_eq
closed_example = post_withdraw-production (server_in (lit "production")) withdraw_request refl

submits_one : length (post_withdraw (server_in (lit "development")) withdraw_request).1 ≡ 1
unfolding post_withdraw withdraw_after_gate submit_withdraw prepare_withdraw sign_withdraw
    withdraw_fields can_submit_local_evm_withdraw local_withdraw_authorizer_private_key
    required_safe_integer read_property required_address required_bytes32
    can_use_local_dev_server_bridge safe_contract_environment is_local_request_url
    public_contract_environment contract_environment_from_runtime_profile normalize_runtime_profile
    profile_of_key normalize_contract_environment to_lower trim trim_start is_space starts_with
    str_eq member find_member
submits_one = refl

abbrev private_server : PrivateServer
private_server = record {
  variables = record { zamapay_runtime_profile = none; next_public_runtime_profile = none };
  node_env = some (lit "development");
  hostname = λ url. ok (lit "localhost");
  viem = (server_in (lit "development")).viem;
  is_hex_text = λ s. starts_with s (lit "0x");
  submit_local_private_withdraw = λ withdraw. ok (string withdraw.withdrawal_nonce);
}

abbrev hex_field : Text → Members → Members
hex_field k rest = property k (string (lit "0x1")) rest

abbrev private_body : Members
private_body = hex_field (lit "authorization") (
    hex_field (lit "bucketOwner") (
      property (lit "deadline") (number (int (pos 1900000000))) (
        hex_field (lit "encryptedAmount") (
          hex_field (lit "inputProof") (
            hex_field (lit "recipient") (
              hex_field (lit "settlementBucketCommitment")
                (hex_field (lit "withdrawalNonce") end)))))))

abbrev private_request : Members → PrivateRequest
private_request body = record {
  url = lit "http://localhost:3001/api/dev/local-private-withdraw";
  json = some (object body);
}

submits_private :
    (post_private_withdraw private_server (private_request private_body)).0
    ≡ ok (record { reply_status = 200; json = string (lit "0x1") })
unfolding post_private_withdraw is_private_enabled private_withdraw_of required_hex required_account
    required_deadline server_contract_environment read_property can_use_local_dev_server_bridge
    safe_contract_environment is_local_request_url contract_environment_from_runtime_profile
    normalize_runtime_profile profile_of_key normalize_contract_environment to_lower trim trim_start
    is_space starts_with str_eq member find_member
submits_private = refl

refuses_private : length (post_private_withdraw private_server (private_request end)).1 ≡ 0
unfolding post_private_withdraw is_private_enabled private_withdraw_of required_hex
    server_contract_environment read_property can_use_local_dev_server_bridge
    safe_contract_environment is_local_request_url contract_environment_from_runtime_profile
    normalize_runtime_profile profile_of_key normalize_contract_environment to_lower trim trim_start
    is_space starts_with str_eq member find_member
refuses_private = refl
