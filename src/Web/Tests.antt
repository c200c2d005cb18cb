-- ===== src/Web/Tests.antt =====
-- Runs of the relayer route, the gates and the amounts.
mod Checkouts
mod Decryption
mod Funds
mod Invoices
mod LocalChain
mod Projections
mod Portal
mod Projects
mod Sessions
mod Settings
mod Withdrawals
use zamapay.Prelude.{
  ℕ, ◌^◌, ◌/◌, ◌%◌, ◌≤◌, ◌≡◌, ◌↔◌, refl, true, false, Option, none, some, [], ◌∷◌, ◌++◌, arith,
  length, replicate,
}
use zamapay.Prelude.Text.{
  Text, lit, to_lower, trim, starts_with, all_digits, is_space, trim_start, str_eq,
}
use zamapay.Prelude.Decimal.{decimal, value, value_from}
use zamapay.Js.{Value, string, object, end, property, Members, pos, int, member, find_member}
use zamapay.Web.Errors.{Attempt, ok, fail}
use zamapay.Web.Environment.{
  local_dev, contract_environment_for_chain_id, contract_environment_from_runtime_profile,
  normalize_contract_environment, normalize_runtime_profile, profile_of_key,
  public_contract_environment,
}
use zamapay.Web.Gates.{
  GateInput, is_text, in_production, safe_contract_environment, is_local_request_url,
  can_use_dev_signer, can_use_local_dev_server_bridge, can_use_evm_relayer,
}
use zamapay.Web.Gates.Laws.{production_closes}
use zamapay.Web.Amounts.{big, FormatUnitsOptions, format_digits, format_token_units}
use zamapay.Web.Amounts.Digits.{fractional_digits}
use zamapay.Web.Amounts.Laws.{format_digits-exact, fractional_digits-length, IsFraction}
use zamapay.Web.Relay.{
  FundingAction, Viem, read_property, relay_method, required_address, required_signature,
  assert_same_address, assert_same_big_int, required_big_int, required_bytes32, required_record,
  required_string,
}
use zamapay.Web.Relay.Payments.{
  ChainClient, Receipt, permit2_args, permit2_call, relay_payment, relayer_gas, settlement_params,
  submit,
}
use zamapay.Web.Relay.Server.{
  Server, RelayRequest, RustRequest, RustResponse, PublicCheckout, PaymentActions,
}
use zamapay.Web.Relay.Post.{
  post, after_gate, can_submit_evm_relay, relay_checked, check_request, rust_json, check_asset,
  check_action, relaying_of, evm_relayer_private_key, is_local, caught_reply,
}
use zamapay.Web.Relay.Post.Laws.{Relayed, post-Relayed}

abbrev bytes32 : Text
bytes32 = lit "0x" ++ replicate 64 b'7'

abbrev sample_signature : Text
sample_signature = lit "0x" ++ replicate 130 b'a'

abbrev text_member : Text → Text → Members → Members
text_member k s rest = property k (string s) rest

abbrev params_value : Value
params_value = object (
    text_member (lit "expiresAt") (lit "1900000000") (
      text_member (lit "grossAmount") (lit "1500000") (
        text_member (lit "intentId") bytes32 (
          text_member (lit "merchantNetAmount") (lit "1485000") (
            text_member (lit "platformFeeAmount") (lit "15000") (
              text_member (lit "projectId") bytes32
                (text_member (lit "token") (lit "0x70") end)))))))

abbrev permit_value : Value
permit_value = object (
    text_member (lit "payer") (lit "0x9a") (
      property (lit "permit")
        (object (
          text_member (lit "deadline") (lit "1900000000") (
            text_member (lit "nonce") (lit "3") (
              property (lit "permitted")
                (object (
                  text_member (lit "amount") (lit "1500000")
                    (text_member (lit "token") (lit "0x70") end)))
                end))))
        (text_member (lit "permit2") (lit "0x22") (
          text_member (lit "witness") bytes32
            (text_member (lit "witnessTypeString") (lit "W") end)))))

abbrev sample_action : FundingAction
sample_action = record {
  method = lit "permit2";
  rank = 1;
  gasless = true;
  disabled_reason = none;
  authorization = some (
    object end,
    object (property (lit "params") params_value (property (lit "permit2") permit_value end)),
  );
}

abbrev sample_viem : Viem
sample_viem = record {
  is_address = λ s. true;
  get_address = λ s. ok s;
  hex_to_signature = λ s. fail s;
  cannot_read = λ k. k;
}

abbrev sample_receipt : Receipt
sample_receipt = record { block_number = 7; gas_used = 210000; status = lit "success" }

abbrev sample_client : ChainClient
sample_client = record {
  estimate_contract_gas = λ connection call. ok 200000;
  write_contract = λ s. ok (lit "0xhash");
  wait_for_transaction_receipt = λ hash. ok sample_receipt;
}

abbrev checkout_response : PublicCheckout
checkout_response = record {
  has_payment_intent = true;
  evm_asset = some (record { asset_chain_id = 31337; rpc_url = lit "http://127.0.0.1:8545" });
}

abbrev actions_response : PaymentActions
actions_response = record {
  actions_chain_id = 31337;
  settlement_contract = lit "0x5e";
  actions = sample_action ∷ [];
}

abbrev rust_answer : RustRequest → Attempt RustResponse
rust_answer request = ok (record { is_ok = true; status = 200; text = ok (lit "{}") })

abbrev sample_server : Server
sample_server = record {
  variables = record { zamapay_runtime_profile = none; next_public_runtime_profile = none };
  enable_evm_relayer = none;
  evm_relayer_private_key = none;
  node_env = some (lit "development");
  hostname = λ url. ok (lit "localhost");
  encode_uri_component = λ s. ok s;
  fetch = rust_answer;
  parse_checkout = λ s. ok checkout_response;
  parse_actions = λ s. ok actions_response;
  address_of_key = λ key. ok (lit "0xre");
  viem = sample_viem;
  client = sample_client;
}

abbrev sample_request : RelayRequest
sample_request = record {
  url = lit "http://localhost:3001/api/checkout/c1/evm-relay";
  checkout_id = lit "c1";
  json = some (
      object (
        text_member (lit "method") (lit "permit2") (
          text_member (lit "payerAddress") (lit "0x9a")
            (text_member (lit "signature") sample_signature end))));
}

Relayed_example :
    Relayed sample_server sample_request
      (lit "0xhash")
      sample_receipt
      (post sample_server sample_request).1
unfolding post after_gate can_submit_evm_relay relay_checked check_request rust_json check_asset
    check_action relaying_of evm_relayer_private_key is_local caught_reply read_property
    relay_method required_address required_signature assert_same_address assert_same_big_int
    required_big_int required_bytes32 required_record required_string permit2_args permit2_call
    relay_payment relayer_gas settlement_params submit contract_environment_for_chain_id
    contract_environment_from_runtime_profile normalize_contract_environment
    normalize_runtime_profile profile_of_key public_contract_environment to_lower trim starts_with
    all_digits is_space trim_start str_eq member find_member value value_from can_use_evm_relayer
    can_use_local_dev_server_bridge is_local_request_url safe_contract_environment
Relayed_example = post-Relayed sample_server sample_request refl refl

abbrev production_input : GateInput
production_input = record {
  contract_env = none;
  switch = none;
  node_env = some (lit "production");
  request_url = lit "http://localhost";
}

abbrev no_host : Text → Attempt Text
no_host url = fail (lit "Invalid URL")

production_example :
    (can_use_dev_signer no_host production_input ≡ ok false)
    × (can_use_local_dev_server_bridge no_host production_input ≡ ok false)
    × (is_text none (lit "1") ≡ false → can_use_evm_relayer no_host production_input ≡ ok false)
unfolding str_eq
production_example = production_closes no_host production_input refl

abbrev ungrouped : ℕ → Option Text → Text
ungrouped n locale = decimal n

amount_example :
    (shown : Text) × (format_digits ungrouped none [] 1234500 6 2 6
      ≡ [] ++ ungrouped (1234500 / 10 ^ 6) none ++ lit "." ++ shown)
    × IsFraction 6 (1234500 % 10 ^ 6) shown
amount_example = format_digits-exact ungrouped none [] 1234500 6 2 6 (omega arith) (omega arith)

digits_example :
    (2 ≤ length (fractional_digits 6 234500 6 2).text)
    × (length (fractional_digits 6 234500 6 2).text ≤ 6)
digits_example = fractional_digits-length 6 234500 6 2 (omega arith)

abbrev plain_options : FormatUnitsOptions
plain_options = record {
  locale = none;
  maximum_fraction_digits = none;
  minimum_fraction_digits = none;
}

amount_shown :
    format_token_units ungrouped (big (pos 1234500)) (int (pos 6)) plain_options (some (lit "USDT"))
    ≡ lit "1.2345 USDT"
unfolding format_token_units decimal fractional_digits
amount_shown = refl

dust_shown :
    format_token_units ungrouped (big (pos 1)) (int (pos 18)) plain_options none ≡ lit "<0.000001"
unfolding format_token_units decimal fractional_digits
dust_shown = refl
