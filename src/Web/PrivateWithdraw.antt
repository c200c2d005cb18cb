-- ===== src/Web/PrivateWithdraw.antt =====
-- apps/web/app/api/dev/local-private-withdraw/route.ts: private withdrawals that the development server
-- submits on the local chain. viem and the submission are parameters; what is submitted is recorded.
use zamapay.Prelude.{
  ℕ, Bool, true, false, not, ◌&&◌, ◌||◌, Option, none, some, List, [], ◌∷◌, ◌++◌, ◌or_use◌, ◌==◌,
  if◌then◌else◌,
}
use zamapay.Prelude.Text.{Text, lit, includes}
use zamapay.Js.{Value, number, string, object, end, member, Number, int, pos, is_safe_integer}
use zamapay.Web.Errors.{Failure, Attempt, ok, throw, fail, error_message, ◌>>=◌}
use zamapay.Web.Environment.{
  ContractEnvironment, local_dev, sepolia, ProfileVariables, environment_text,
}
use zamapay.Web.Finalize.{server_contract_environment}
use zamapay.Web.Gates.{can_use_local_dev_server_bridge}
use zamapay.Web.Receipts.{JsonReply, error_reply}
use zamapay.Web.Relay.{Viem, read_property}

-- What `submitLocalPrivateWithdraw` is given.
pub record PrivateWithdraw : Type 0 where
  pub authorization : Text
  pub bucket_owner : Text
  pub deadline : ℕ
  pub encrypted_amount : Text
  pub input_proof : Text
  pub recipient : Text
  pub settlement_bucket_commitment : Text
  pub withdrawal_nonce : Text

pub record PrivateServer : Type 0 where
  pub variables : ProfileVariables
  pub node_env : Option Text
  pub hostname : Text → Attempt Text
  pub viem : Viem
  pub is_hex_text : Text → Bool
  pub submit_local_private_withdraw : PrivateWithdraw → Attempt Value

pub record PrivateRequest : Type 0 where
  pub url : Text
  pub json : Option Value

abbrev positive_deadline : Number → Attempt ℕ
positive_deadline (int (pos n)) =
    if is_safe_integer (int (pos n)) && not (n == 0)
    then ok n
    else fail (lit "deadline must be a positive safe integer.")
positive_deadline _ = fail (lit "deadline must be a positive safe integer.")

unfoldable pub required_deadline : Value → Attempt ℕ
required_deadline (number n) = positive_deadline n
required_deadline _ = fail (lit "deadline must be a positive safe integer.")

abbrev failed_status : Text → ℕ
failed_status message =
    if includes message (lit "must be") || includes message (lit "requires") then 400 else 502

unfoldable pub private_withdraw_failed : Failure → JsonReply
private_withdraw_failed e =
    let message = error_message e or_use lit "local private withdraw submission failed" in
    error_reply (failed_status message) message

module _ (server : PrivateServer) where
  abbrev bridge_in : ContractEnvironment → PrivateRequest → Attempt Bool
  bridge_in sepolia request = ok false
  bridge_in local_dev request = can_use_local_dev_server_bridge server.hostname (record {
    contract_env = some (environment_text local_dev);
    switch = none;
    node_env = server.node_env;
    request_url = request.url;
  })

  unfoldable pub is_private_enabled : PrivateRequest → Attempt Bool
  is_private_enabled request = do
    environment ← server_contract_environment server.variables
    bridge_in environment request

  unfoldable pub required_hex : Value → Text → Attempt Text
  required_hex (string s) field =
      if server.is_hex_text s then ok s else fail (field ++ lit " must be a hex string.")
  required_hex _ field = fail (field ++ lit " must be a hex string.")

  unfoldable pub required_account : Value → Text → Attempt Text
  required_account (string s) field = server.viem.get_address s
  required_account _ field = fail (field ++ lit " must be an address.")

  -- The fields in the order in which they are read.
  unfoldable pub private_withdraw_of : Value → Attempt PrivateWithdraw
  private_withdraw_of body = do
    authorization_value ← read_property server.viem body (lit "authorization")
    authorization ← required_hex authorization_value (lit "authorization")
    owner ← required_account (member body (lit "bucketOwner")) (lit "bucketOwner")
    deadline ← required_deadline (member body (lit "deadline"))
    amount ← required_hex (member body (lit "encryptedAmount")) (lit "encryptedAmount")
    proof ← required_hex (member body (lit "inputProof")) (lit "inputProof")
    recipient ← required_account (member body (lit "recipient")) (lit "recipient")
    commitment ←
        required_hex (member body (lit "settlementBucketCommitment"))
          (lit "settlementBucketCommitment")
    nonce ← required_hex (member body (lit "withdrawalNonce")) (lit "withdrawalNonce")
    ok (record {
      authorization = authorization;
      bucket_owner = owner;
      deadline = deadline;
      encrypted_amount = amount;
      input_proof = proof;
      recipient = recipient;
      settlement_bucket_commitment = commitment;
      withdrawal_nonce = nonce;
    })

  abbrev submitted_reply : Attempt Value → JsonReply
  submitted_reply (throw e) = private_withdraw_failed e
  submitted_reply (ok submitted) = record { reply_status = 200; json = submitted }

  abbrev pub submit_private : Attempt PrivateWithdraw → JsonReply × List PrivateWithdraw
  submit_private (throw e) = (private_withdraw_failed e, [])
  submit_private (ok withdraw) =
      (submitted_reply (server.submit_local_private_withdraw withdraw), withdraw ∷ [])

  abbrev pub private_if : PrivateRequest → Attempt Bool → Attempt JsonReply × List PrivateWithdraw
  private_if request (throw e) = (throw e, [])
  private_if request (ok false) =
      (ok (error_reply 404 (lit "local private withdraw submitter is disabled")), [])
  private_if request (ok true) =
      let (reply, submitted) =
        submit_private (private_withdraw_of (request.json or_use object end)) in
      (ok reply, submitted)

  -- `POST`, with what it submits
  unfoldable pub post_private_withdraw : PrivateRequest → Attempt JsonReply × List PrivateWithdraw
  post_private_withdraw request = private_if request (is_private_enabled request)
