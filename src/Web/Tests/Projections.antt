-- ===== src/Web/Tests/Projections.antt =====
-- Runs of the two routes that project what the chain finalized.
use zamapay.Prelude.{◌or_use◌, ◌≡◌, ◌≤◌, refl, true, Option, none, some, [], ◌∷◌, All, length}
use zamapay.Prelude.Text.{lit, str_eq, to_lower, trim, trim_start, is_space, starts_with}
use zamapay.Js.{Value, string, object, end, property, null, member, find_member}
use zamapay.Js.Rounding.{number_of_bigint, spacing}
use zamapay.Web.Errors.{ok, fail}
use zamapay.Web.Receipts.{Log, ChainReader, successful_receipt, emitted_event}
use zamapay.Web.Finalize.{
  FinalizeServer, post_finalized, project_request, project_payment, find_finalized_payment,
  active_settlement, payment_hash, requested_invoice, server_contract_environment,
}
use zamapay.Web.Finalize.Laws.{IsProjection, post_finalized-IsProjection}
use zamapay.Web.Growth.{
  GrowthServer, post_growth, growth_projection, verified_finalized_growth, active_registry,
  required_hash, required_growth_plan,
}
use zamapay.Web.Environment.{
  contract_environment_from_runtime_profile, normalize_runtime_profile, profile_of_key,
}
use zamapay.Web.Growth.Laws.{IsEntitled, post_growth-IsEntitled}
use zamapay.Web.Relay.{Viem, read_property}

abbrev plain_viem : Viem
plain_viem = record {
  is_address = λ s. true;
  get_address = λ s. ok s;
  hex_to_signature = λ s. fail s;
  cannot_read = λ k. k;
}

abbrev contract_log : Log
contract_log = record { emitter = lit "0x5E"; topics = []; payload = [] }

-- A chain where every transaction succeeded and emitted one event.
abbrev chain_with : {Event : Type 0} → Event → ChainReader Event
chain_with event = record {
  get_transaction_receipt = λ hash. ok (record { succeeded = true; logs = contract_log ∷ [] });
  parse_event_logs = λ logs. event ∷ [];
}

abbrev finalize_server : FinalizeServer
finalize_server = record {
  variables = record { zamapay_runtime_profile = none; next_public_runtime_profile = none };
  finality = record { confirmations = 2; finality_threshold = 2 };
  settlement_manifest = λ environment. some (lit "0x5e");
  manifest_chain_id = λ environment. none;
  label = λ environment. lit "Local";
  reader = chain_with (record { accepted = true; order_commitment = lit "0xc" });
  checkout_id_of = λ address commitment. ok 7;
  finalize_local = λ id. fail (lit "unused");
  post_operator = λ posted. ok null;
  viem = plain_viem;
}

abbrev payment_body : Option Value
payment_body = some (
    object (
      property (lit "paymentTxHash")
        (string (lit "0x0123456789abcdef0123456789abcdef0123456789abcdef0123456789abcdef")) end))

projection_example :
    IsProjection finalize_server
      (payment_body or_use object end)
      (post_finalized finalize_server payment_body).1
projection_example = post_finalized-IsProjection finalize_server payment_body

abbrev growth_server : GrowthServer
growth_server = record {
  variables = record { zamapay_runtime_profile = none; next_public_runtime_profile = none };
  registry_manifest = λ environment. some (lit "0x5e");
  label = λ environment. lit "Local";
  reader = chain_with (record { merchant = lit "0x9a"; accepted = true; pass_id = 3; version = 1 });
  check_handle_of = λ address id. ok (lit "0xh");
  is_hex_text = λ s. true;
  post_operator = λ projection. ok null;
  viem = plain_viem;
}

abbrev growth_body : Option Value
growth_body = some (
    object (
      property (lit "ownerAddress") (string (lit "0x9a")) (
        property (lit "plan") (string (lit "growth"))
          (property (lit "finalizationTxHash") (string (lit "0x1")) end))))

subscription_example :
    All (IsEntitled growth_server) (post_growth growth_server growth_body).1
    × (length (post_growth growth_server growth_body).1 ≤ 1)
subscription_example = post_growth-IsEntitled growth_server growth_body

posts_payment : length (post_finalized finalize_server payment_body).1 ≡ 2
unfolding post_finalized project_request project_payment find_finalized_payment active_settlement
    payment_hash requested_invoice server_contract_environment successful_receipt emitted_event
    read_property contract_environment_from_runtime_profile normalize_runtime_profile profile_of_key
    to_lower trim trim_start is_space starts_with str_eq member find_member
posts_payment = refl

posts_growth : length (post_growth growth_server growth_body).1 ≡ 1
unfolding post_growth growth_projection verified_finalized_growth active_registry required_hash
    required_growth_plan server_contract_environment successful_receipt emitted_event read_property
    contract_environment_from_runtime_profile normalize_runtime_profile profile_of_key to_lower trim
    trim_start is_space starts_with str_eq member find_member
posts_growth = refl

rounds_down : number_of_bigint 9007199254740993 ≡ 9007199254740992
unfolding number_of_bigint spacing
rounds_down = refl

rounds_up : number_of_bigint 18446744073709551615 ≡ 18446744073709551616
unfolding number_of_bigint spacing
rounds_up = refl
