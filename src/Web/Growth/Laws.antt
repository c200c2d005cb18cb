-- ===== src/Web/Growth/Laws.antt =====
-- What the subscription route tells the operator's API, and on what evidence.
use zamapay.Prelude.{◌≤◌, ◌≡◌, refl, ap, ◌∙◌, true, Option, All, length, arith}
use zamapay.Prelude.Text.{Text, str_eq, str_eq_iff}
use zamapay.Prelude.Decimal.{decimal}
use zamapay.Js.{Value}
use zamapay.Js.Rounding.{number_of_bigint}
use zamapay.Web.Errors.{Attempt, ok, throw, ensure, ensure-true, Passes, >>=-Passes, Passes-ok}
use zamapay.Web.Receipts.{
  successful_receipt, emitted_event, successful_receipt-ok, emitted_event-ok, Emitted,
}
use zamapay.Web.Relay.{read_property}
use zamapay.Web.Growth.{
  SubscriptionFinalized, ActiveRegistry, VerifiedGrowth, OwnedProjection, GrowthServer,
  required_growth_plan, required_hash, owner_text, active_registry, verified_finalized_growth,
  growth_projection, project_growth, post_growth,
}

module _ (server : GrowthServer) where
  -- The chain's evidence for a change: the event that its transaction emitted first at the registry
  -- accepts it, for the owner's merchant. The version is the double of the event's.
  abbrev pub IsVerified : ActiveRegistry → Text → Text → VerifiedGrowth → Type 0
  IsVerified active hash owner verified =
      (event : SubscriptionFinalized) × Emitted server.reader active.registry_address hash event
      × (server.viem.get_address event.merchant ≡ ok owner)
      × (event.accepted ≡ true)
      × (verified.verified_pass ≡ decimal event.pass_id)
      × (verified.terms_version ≡ number_of_bigint event.version)
      × (server.check_handle_of active.registry_address event.pass_id ≡ ok verified.check_handle)

  growth_event-Passes :
      (active : ActiveRegistry) (hash owner : Text)
      → Passes (IsVerified active hash owner) (verified_finalized_growth server active hash owner)
  unfolding verified_finalized_growth
  growth_event-Passes active hash owner =
      >>=-Passes _ (successful_receipt server.reader _ _ hash) _ λ receipt e₁.
        >>=-Passes _ (emitted_event server.reader _ active.registry_address receipt) _ λ event e₂.
          >>=-Passes _ (server.viem.get_address event.merchant) _ λ merchant e₃.
            >>=-Passes _ (ensure (str_eq merchant owner) _) _ λ u₁ e₄.
              >>=-Passes _ (ensure event.accepted _) _ λ u₂ e₅.
                >>=-Passes _ (server.check_handle_of active.registry_address event.pass_id) _
                  λ handle e₆.
                    let (there, fine) = successful_receipt-ok server.reader _ _ hash e₁ in
                    (
                      event,
                      (
                        receipt,
                        there,
                        fine,
                        emitted_event-ok server.reader _ active.registry_address receipt e₂,
                      ),
                      e₃ ∙ ap ok ((str_eq_iff merchant owner).0 (ensure-true _ _ e₄)),
                      ensure-true _ _ e₅,
                      refl,
                      refl,
                      e₆,
                    )

  -- A projection of a verified change: its pass, version and check are those of the event, and its
  -- transaction is the one that emitted it.
  abbrev pub IsEntitled : OwnedProjection → Type 0
  IsEntitled posted =
      (active : ActiveRegistry) × (active_registry server ≡ ok active)
      × IsVerified active posted.projection.entitlement_tx_hash posted.owner (record {
        verified_pass = posted.projection.projected_pass;
        check_handle = posted.projection.subscription_check_handle;
        terms_version = posted.projection.entitlement_version;
      })

  growth-Passes : (json : Option Value) → Passes IsEntitled (growth_projection server json)
  unfolding growth_projection
  growth-Passes json = >>=-Passes _ (read_property server.viem _ _) _ λ owner_value _.
      >>=-Passes _ (owner_text server owner_value) _ λ text _.
        >>=-Passes _ (active_registry server) _ λ active e₁.
          >>=-Passes _ (server.viem.get_address text) _ λ owner _.
            >>=-Passes _ (required_growth_plan _) _ λ u _.
              >>=-Passes _ (required_hash server _ _) _ λ hash _.
                >>=-Passes _ (verified_finalized_growth server active hash owner) _ λ verified e₂. (
                  active,
                  e₁,
                  Passes-ok (IsVerified active hash owner) (growth_event-Passes active hash owner)
                      e₂,
                )

  project_growth-IsEntitled :
      (projection : Attempt OwnedProjection)
      → Passes IsEntitled projection
      → All IsEntitled (project_growth server projection).1
        × (length (project_growth server projection).1 ≤ 1)
  project_growth-IsEntitled (throw e) _ = (tt, omega arith)
  project_growth-IsEntitled (ok projection) h = ((h, tt), omega arith)

  -- The route posts at most one projection, and only of a change that the registry's event accepts
  -- for the merchant that it is posted for; the version is the double that `Number` makes of the event's.
  pub post_growth-IsEntitled :
      (json : Option Value)
      → All IsEntitled (post_growth server json).1 × (length (post_growth server json).1 ≤ 1)
  unfolding post_growth
  post_growth-IsEntitled json = project_growth-IsEntitled _ (growth-Passes json)
