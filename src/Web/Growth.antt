-- ===== src/Web/Growth.antt =====
-- apps/web/app/api/billing/project-growth/route.ts: the projection of a finalized Growth subscription.
-- The registry's manifest, viem and the Rust API are parameters; what is posted is recorded.
pub mod Laws
use zamapay.Prelude.{
  ℕ, Bool, true, false, Option, none, some, List, [], ◌∷◌, ◌++◌, ◌or_use◌, ◌or_try◌, if◌then◌else◌,
}
use zamapay.Prelude.Text.{Text, lit, starts_with, str_eq}
use zamapay.Prelude.Decimal.{decimal}
use zamapay.Js.{Value, string, object, end, member}
use zamapay.Js.Rounding.{number_of_bigint}
use zamapay.Web.Errors.{
  Failure, rust_api_error, route_error, error, not_an_error, Attempt, ok, throw, ensure, ◌>>=◌,
  ◌>>◌,
}
use zamapay.Web.Environment.{ContractEnvironment, ProfileVariables}
use zamapay.Web.Finalize.{server_contract_environment}
use zamapay.Web.Receipts.{JsonReply, route_failure, ChainReader, successful_receipt, emitted_event}
use zamapay.Web.Relay.{Viem, read_property}

pub data BillingCycle : Type 0 where
  monthly annual : BillingCycle

-- The event `SubscriptionChangeFinalized`.
pub record SubscriptionFinalized : Type 0 where
  pub merchant : Text
  pub accepted : Bool
  pub pass_id : ℕ
  pub version : ℕ

pub record ActiveRegistry : Type 0 where
  pub environment : ContractEnvironment
  pub registry_address : Text

-- `SubscriptionProjectionBody`; its plan is `growth`.
pub record SubscriptionProjection : Type 0 where
  pub billing_cycle : BillingCycle
  pub entitlement_tx_hash : Text
  pub entitlement_version : ℕ
  pub projected_pass : Text
  pub subscription_check_handle : Text

pub record VerifiedGrowth : Type 0 where
  pub verified_pass : Text
  pub check_handle : Text
  pub terms_version : ℕ

-- A projection, posted for an owner.
pub record OwnedProjection : Type 0 where
  pub owner : Text
  pub projection : SubscriptionProjection

pub record GrowthServer : Type 0 where
  pub variables : ProfileVariables
  pub registry_manifest : ContractEnvironment → Option Text
  pub label : ContractEnvironment → Text
  pub reader : ChainReader SubscriptionFinalized
  pub check_handle_of : Text → ℕ → Attempt Text
  pub is_hex_text : Text → Bool
  pub post_operator : OwnedProjection → Attempt Value
  pub viem : Viem

unfoldable pub billing_cycle_of : Value → BillingCycle
billing_cycle_of (string s) = if str_eq s (lit "annual") then annual else monthly
billing_cycle_of _ = monthly

unfoldable pub required_growth_plan : Value → Attempt (Unit {0})
required_growth_plan (string s) =
    ensure (str_eq s (lit "growth")) (route_error (lit "plan must be growth.") 400)
required_growth_plan _ = throw (route_error (lit "plan must be growth.") 400)

module _ (server : GrowthServer) where
  unfoldable pub required_hash : Value → Text → Attempt Text
  required_hash (string s) field =
      if server.is_hex_text s
      then ok s
      else throw (route_error (field ++ lit " must be a hex string.") 400)
  required_hash _ field = throw (route_error (field ++ lit " must be a hex string.") 400)

  -- `typeof payload.ownerAddress !== 'string'`
  abbrev pub owner_text : Value → Attempt Text
  owner_text (string s) = ok s
  owner_text _ = throw (route_error (lit "ownerAddress is required.") 400)

  abbrev missing_registry : ContractEnvironment → Failure
  missing_registry environment =
      route_error
        (lit "PrivateSubscriptionRegistry is missing from the "
          ++ server.label environment
          ++ lit " manifest.")
        409

  unfoldable pub active_registry : Attempt ActiveRegistry
  active_registry = do
    environment ← server_contract_environment server.variables
    elim (server.registry_manifest environment) [
      | none ↦ throw (missing_registry environment)
      | some address ↦
          if starts_with address (lit "0x")
          then ok (record { environment = environment; registry_address = address })
          else throw (missing_registry environment)
    ]

  unfoldable pub verified_finalized_growth : ActiveRegistry → Text → Text → Attempt VerifiedGrowth
  verified_finalized_growth active hash owner = do
    receipt ←
        successful_receipt server.reader
          (lit "Subscription finalization transaction receipt was not found.")
          (lit "Subscription finalization transaction did not succeed.") hash
    event ←
        emitted_event server.reader
          (lit "SubscriptionChangeFinalized event was not emitted by the "
            ++ server.label active.environment
            ++ lit " registry.")
          active.registry_address receipt
    merchant ← server.viem.get_address event.merchant
    ensure (str_eq merchant owner) (
        route_error (lit "Subscription finalization merchant does not match the current owner.")
          409)
    ensure event.accepted (route_error (lit "SubscriptionChangeFinalized was rejected.") 409)
    handle ← server.check_handle_of active.registry_address event.pass_id
    ok (record {
      verified_pass = decimal event.pass_id;
      check_handle = handle;
      terms_version = number_of_bigint event.version;
    })

  -- `projectSubscription`: an error of the API becomes a route error.
  unfoldable pub projection_error : Failure → Failure
  projection_error (rust_api_error pathname status body) =
      route_error (lit "subscription projection failed with " ++ decimal status ++ lit ": " ++ body)
        502
  projection_error e = e

  -- The checks of the request, up to what is posted.
  unfoldable pub growth_projection : Option Value → Attempt OwnedProjection
  growth_projection json = do
    let payload = json or_use object end
    owner_value ← read_property server.viem payload (lit "ownerAddress")
    text ← owner_text owner_value
    active ← active_registry
    owner ← server.viem.get_address text
    required_growth_plan (member payload (lit "plan"))
    hash ← required_hash (member payload (lit "finalizationTxHash")) (lit "finalizationTxHash")
    verified ← verified_finalized_growth active hash owner
    ok (record {
      owner = owner;
      projection = record {
        billing_cycle = billing_cycle_of (member payload (lit "billingCycle"));
        entitlement_tx_hash = hash;
        entitlement_version = verified.terms_version;
        projected_pass = verified.verified_pass;
        subscription_check_handle = verified.check_handle;
      };
    })

  abbrev growth_failed : Failure → JsonReply
  growth_failed e = route_failure (lit "Growth projection failed.") e

  abbrev posted_reply : Attempt Value → JsonReply
  posted_reply (throw e) = growth_failed (projection_error e)
  posted_reply (ok subscription) = record { reply_status = 200; json = subscription }

  abbrev pub project_growth : Attempt OwnedProjection → JsonReply × List OwnedProjection
  project_growth (throw e) = (growth_failed e, [])
  project_growth (ok projection) = (posted_reply (server.post_operator projection), projection ∷ [])

  -- `POST`, with what it posts.
  unfoldable pub post_growth : Option Value → JsonReply × List OwnedProjection
  unfolding growth_projection verified_finalized_growth active_registry required_hash
      projection_error
  post_growth json = project_growth (growth_projection json)
