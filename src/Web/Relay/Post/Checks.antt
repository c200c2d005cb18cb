-- ===== src/Web/Relay/Post/Checks.antt =====
-- The payment that the checks of the `POST` handler let through.
use zamapay.Prelude.{
  ==_iff, ◌≡◌, refl, sym, ap, ◌∙◌, true, [], find-true, inl, inr, Option-cases, ◌or_use◌, ◌==◌,
  find,
}
use zamapay.Prelude.Text.{Text, lit, str_eq, str_eq_iff, nonempty}
use zamapay.Js.{string, Value, member, object, end}
use zamapay.Web.Errors.{ok, Passes, >>=-Passes, if-Passes, Passes-map}
use zamapay.Web.Environment.{contract_environment_for_chain_id, chain_id}
use zamapay.Web.Relay.{
  RelayMethod, FundingAction, method_text, relay_method, read_property, required_address,
  required_signature,
}
use zamapay.Web.Relay.Laws.{read_property-ok}
use zamapay.Web.Relay.Payments.{RelayPaymentInput}
use zamapay.Web.Relay.Server.{Server, RelayRequest, EvmAsset, PaymentActions}
use zamapay.Web.Relay.Post.{
  actions_request, Checked, refused, relaying, rust_json, evm_relayer_private_key, relaying_of,
  check_action, check_chain, check_asset, check_request,
}

abbrev pub body_of : RelayRequest → Value
body_of request = request.json or_use object end

abbrev pub OnRelaying : (RelayMethod → RelayPaymentInput → Type 0) → Checked → Type 0
OnRelaying P (refused code message) = Unit
OnRelaying P (relaying method input) = P method input

-- A gasless payment of the actions that the Rust API answered for this payer, on their chain and to
-- their settlement contract.
abbrev pub Offered : Server → RelayPaymentInput → Type 0
Offered server input =
    (input.action.gasless ≡ true)
    × (pathname : Text) × (actions : PaymentActions) × (rust_json server server.parse_actions
          (actions_request pathname input.payer_address)
        ≡ ok actions)
    × (input.wallet_client.connection.chain ≡ actions.actions_chain_id)
    × (required_address server.viem (string actions.settlement_contract) (lit "settlementContract")
        ≡ ok input.settlement)

-- The payment that the request asks for: its method, payer and signature are the body's, and its
-- action is a gasless one of that method.
abbrev pub Asked : Server → RelayMethod → Text → Text → RelayMethod → RelayPaymentInput → Type 0
Asked server method payer signature method' input =
    (method' ≡ method)
    × (input.payer_address ≡ payer)
    × (input.signature ≡ signature)
    × (input.action.method ≡ method_text method)
    × Offered server input

module _ (server : Server) (request : RelayRequest) (method : RelayMethod) (payer signature : Text)
    (asset : EvmAsset) (actions : PaymentActions) (pathname : Text)
    (received : rust_json server server.parse_actions (actions_request pathname payer)
      ≡ ok actions) where
  abbrev AskedFor : Checked → Type 0
  AskedFor = OnRelaying (Asked server method payer signature)

  relaying_of-Passes :
      (action : FundingAction)
      → action.method ≡ method_text method
      → action.gasless ≡ true
      → Passes AskedFor (relaying_of server request method payer signature asset actions action)
  unfolding relaying_of
  relaying_of-Passes action hm hg =
      elim (Option-cases (contract_environment_for_chain_id actions.actions_chain_id)) [
        | inl e ↦ rw (e, Passes) tt
        | inr (environment, e) ↦
            rw (e, Passes)
              (if-Passes _ (chain_id environment == actions.actions_chain_id) _ _
                (λ t. >>=-Passes _ (evm_relayer_private_key server request) _ λ key _.
                  >>=-Passes _ (server.address_of_key key) _ λ account _.
                    >>=-Passes _ (required_address server.viem _ _) _ λ settlement read. (
                      refl,
                      refl,
                      refl,
                      hm,
                      (hg, pathname, actions, received, (==_iff _ _).0 t, read),
                    ))
                λ _. tt)
      ]

  check_action-Passes :
      Passes AskedFor (check_action server request method payer signature asset actions)
  unfolding check_action
  check_action-Passes =
      elim (Option-cases (find (λ a. str_eq a.method (method_text method)) actions.actions)) [
        | inl e ↦ rw (e, Passes) tt
        | inr (action, e) ↦
            let named : action.method ≡ method_text method =
              (str_eq_iff _ _).0
                (find-true (λ a. str_eq a.method (method_text method)) actions.actions e) in
            rw (e, Passes)
              (if-Passes _ (nonempty (action.disabled_reason or_use [])) _ _ (λ _. tt)
                λ _. if-Passes _ action.gasless _ _ (relaying_of-Passes action named) λ _. tt)
      ]

  check_chain-Passes :
      Passes AskedFor (check_chain server request method payer signature asset actions)
  check_chain-Passes =
      if-Passes _ (actions.actions_chain_id == asset.asset_chain_id) _ _ (λ _. check_action-Passes)
        λ _. tt

check_asset-Passes :
    (server : Server) (request : RelayRequest) (method : RelayMethod) (payer signature path : Text)
    (asset : EvmAsset)
    → Passes
        (OnRelaying (Asked server method payer signature))
        (check_asset server request method payer signature path asset)
unfolding check_asset
check_asset-Passes server request method payer signature path asset =
    >>=-Passes _ (rust_json server server.parse_actions _) _ λ actions received.
      check_chain-Passes server request method payer signature asset actions _ received

-- What the request asks for, read from its body.
abbrev pub Claims : Server → RelayRequest → RelayMethod → RelayPaymentInput → Type 0
Claims server request method input =
    (relay_method (member (body_of request) (lit "method")) ≡ ok method)
    × (required_address server.viem (member (body_of request) (lit "payerAddress"))
          (lit "payerAddress")
        ≡ ok input.payer_address)
    × (required_signature (member (body_of request) (lit "signature")) ≡ ok input.signature)
    × (input.action.method ≡ method_text method)
    × Offered server input

-- A payment asked for with what the body's fields were read as is one that the body claims.
Asked-Claims :
    (server : Server) (request : RelayRequest) (method : RelayMethod) (payer signature : Text)
    → relay_method (member (body_of request) (lit "method")) ≡ ok method
    → required_address server.viem
        (member (body_of request) (lit "payerAddress"))
        (lit "payerAddress")
      ≡ ok payer
    → required_signature (member (body_of request) (lit "signature")) ≡ ok signature
    → (checked : Checked) → OnRelaying (Asked server method payer signature) checked
    → OnRelaying (Claims server request) checked
Asked-Claims server request method payer signature hm hp hs (refused code message) _ = tt
Asked-Claims server request method payer signature hm hp hs (relaying m input)
      (em, ep, es, a, offered) =
    (
      hm ∙ ap ok (sym em),
      hp ∙ ap ok (sym ep),
      hs ∙ ap ok (sym es),
      a ∙ ap method_text (sym em),
      offered,
    )

pub check_request-Passes :
    (server : Server) (request : RelayRequest)
    → Passes (OnRelaying (Claims server request)) (check_request server request)
unfolding check_request
check_request-Passes server request = >>=-Passes _ (read_property server.viem _ _) _ λ m e₁.
    >>=-Passes _ (relay_method m) _ λ method e₂.
      >>=-Passes _ (read_property server.viem _ _) _ λ p e₃.
        >>=-Passes _ (required_address server.viem p _) _ λ payer e₄.
          >>=-Passes _ (read_property server.viem _ _) _ λ s e₅.
            >>=-Passes _ (required_signature s) _ λ signature e₆.
              >>=-Passes _ (server.encode_uri_component _) _ λ encoded _.
                >>=-Passes _ (rust_json server server.parse_checkout _) _ λ checkout _.
                  elim (Option-cases checkout.evm_asset) [
                    | inl e ↦ rw (e, Passes) tt
                    | inr (asset, e) ↦
                        rw (e, Passes)
                          (if-Passes _ checkout.has_payment_intent _ _
                            (λ _.
                              Passes-map
                                (Asked-Claims server request method payer signature
                                  (ap relay_method (read_property-ok server.viem _ _ e₁) ∙ e₂)
                                  (ap (λ v. required_address server.viem v (lit "payerAddress"))
                                      (read_property-ok server.viem _ _ e₃)
                                    ∙ e₄)
                                  (ap required_signature (read_property-ok server.viem _ _ e₅)
                                    ∙ e₆))
                                _
                                (check_asset-Passes server request method payer signature _ asset))
                            λ _. tt)
                  ]
