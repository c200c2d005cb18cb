-- ===== src/Web/Gates/Laws.antt =====
-- What the gates close in production, and what opens the development signer.
use zamapay.Prelude.{Option, not, ◌⊎◌, is_some, ◌≡◌, ◌↔◌, true, false, arith, some}
use zamapay.Prelude.Text.{Text, lit}
use zamapay.Web.Errors.{Attempt, ok, >>=-eq-ok}
use zamapay.Web.Environment.{local_dev}
use zamapay.Web.Gates.{
  GateInput, is_text, in_production, safe_contract_environment, is_local_request_url,
  can_use_dev_signer, can_use_local_dev_server_bridge, can_use_evm_relayer, and_then, bearer_token,
  can_use_sepolia_server_bridge,
}

module _ (hostname : Text → Attempt Text) (input : GateInput) where
  -- In production the development signer and the local bridge are closed, and the relayer is, unless
  -- its switch is `1`; no URL is parsed for it.
  pub production_closes :
      in_production input.node_env ≡ true
      → (can_use_dev_signer hostname input ≡ ok false)
        × (can_use_local_dev_server_bridge hostname input ≡ ok false)
        × (is_text input.switch (lit "1") ≡ false → can_use_evm_relayer hostname input ≡ ok false)
  unfolding can_use_dev_signer can_use_local_dev_server_bridge can_use_evm_relayer
  production_closes h = ground arith

  -- The development signer is open exactly where its switch is `1`, the process is not in production,
  -- the contract environment is local and the request's host is local.
  pub dev_signer_iff :
      (can_use_dev_signer hostname input ≡ ok true)
      ↔ (is_text input.switch (lit "1") ≡ true)
        × (in_production input.node_env ≡ false)
        × (safe_contract_environment input.contract_env ≡ some local_dev)
        × (is_local_request_url hostname input.request_url ≡ ok true)
  unfolding can_use_dev_signer
  dev_signer_iff = ground arith

  -- The local bridge is open outside production alone, for a local host.
  pub local_bridge_open :
      can_use_local_dev_server_bridge hostname input ≡ ok true
      → (in_production input.node_env ≡ false)
        × (is_local_request_url hostname input.request_url ≡ ok true)
  unfolding can_use_local_dev_server_bridge
  local_bridge_open h = ground arith

-- The Sepolia bridge is open outside production for a local host, or for a bearer token.
pub sepolia_bridge_open :
    (hostname : Text → Attempt Text) (header node_env : Option Text) (url : Text)
    → can_use_sepolia_server_bridge hostname header node_env url ≡ ok true
    → ((in_production node_env ≡ false) × (is_local_request_url hostname url ≡ ok true))
      ⊎ (is_some (bearer_token header) ≡ true)
unfolding can_use_sepolia_server_bridge
sepolia_bridge_open hostname header node_env url h =
    let (near, first, rest) =
      >>=-eq-ok (and_then (not (in_production node_env)) (is_local_request_url hostname url)) _ h in
    ground arith
