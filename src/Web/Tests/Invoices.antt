-- ===== src/Web/Tests/Invoices.antt =====
-- Runs of the creation of chain invoices.
use zamapay.Prelude.{◌≡◌, refl, true, none, some, length}
use zamapay.Prelude.Text.{lit, str_eq, to_lower, trim, trim_start, is_space, starts_with}
use zamapay.Js.{Value, number, int, pos, null, string, object, end, property, member, find_member}
use zamapay.Web.Errors.{ok, fail}
use zamapay.Web.Environment.{
  contract_environment_from_runtime_profile, normalize_runtime_profile, profile_of_key,
}
use zamapay.Web.Finalize.{server_contract_environment}
use zamapay.Web.Gates.{bearer_token, can_use_sepolia_server_bridge, is_local_request_url}
use zamapay.Web.ChainInvoice.{
  InvoiceServer, InvoiceRequest, post_chain_invoice, checked_invoice, invoice_input, quote_matches,
  check_quote, read_positive_safe_integer, read_non_negative_safe_integer, expires_of,
  required_text, is_sepolia_dev_bridge_enabled, validate_project_invoice_request,
}

abbrev quote_value : Value
quote_value = object (
    property (lit "billing")
      (object (
        property (lit "grossAmountMinorUnits") (number (int (pos 1000))) (
          property (lit "merchantNetMinorUnits") (number (int (pos 990)))
            (property (lit "platformFeeMinorUnits") (number (int (pos 10))) end))))
      (property (lit "merchantOwnerWallet") (string (lit "0xAB")) end))

-- A server in production on Sepolia.
abbrev sepolia_server : InvoiceServer
sepolia_server = record {
  variables = record {
    zamapay_runtime_profile = some (lit "sepolia-preview");
    next_public_runtime_profile = none;
  };
  node_env = some (lit "production");
  hostname = λ url. ok (lit "pay.example");
  viem = record {
    is_address = λ s. true;
    get_address = λ s. ok s;
    hex_to_signature = λ s. fail s;
    cannot_read = λ k. k;
  };
  quote_url = λ project. ok project;
  fetch_quote = λ url header amount.
      ok (record { quote_ok = true; quote_status = 200; quote = some quote_value });
  create_local_chain_invoice = λ input. ok null;
  create_sepolia_chain_invoice = λ input. ok null;
}

abbrev invoice_request : InvoiceRequest
invoice_request = record {
  url = lit "https://pay.example/api/dev/local-chain-invoice";
  authorization = some (lit "Bearer sk_1");
  json = some (
      object (
        property (lit "amountMinorUnits") (number (int (pos 1000))) (
          property (lit "merchantNetMinorUnits") (number (int (pos 990))) (
            property (lit "platformFeeMinorUnits") (number (int (pos 10))) (
              property (lit "externalRef") (string (lit "order-1")) (
                property (lit "settlementBucketSeed") (string (lit "p1"))
                  (property (lit "merchantOwnerAddress") (string (lit "0xab")) end)))))));
}

creates_one : length (post_chain_invoice sepolia_server invoice_request).1 ≡ 1
unfolding post_chain_invoice checked_invoice invoice_input quote_matches check_quote
    read_positive_safe_integer read_non_negative_safe_integer expires_of required_text
    is_sepolia_dev_bridge_enabled validate_project_invoice_request server_contract_environment
    contract_environment_from_runtime_profile normalize_runtime_profile profile_of_key bearer_token
    can_use_sepolia_server_bridge is_local_request_url to_lower trim trim_start is_space starts_with
    str_eq member find_member
creates_one = refl
