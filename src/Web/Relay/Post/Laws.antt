-- ===== src/Web/Relay/Post/Laws.antt =====
-- What the `POST` handler submits, and what its replies say about it.
use zamapay.Prelude.{ℕ, ◌≡◌, ◌≢◌, sym, ap, ◌∙◌, Bool, true, false, List, [], ◌∷◌}
use zamapay.Prelude.Text.{Text}
use zamapay.Web.Errors.{
  Attempt, ok, throw, ok-injective, ◌>>=◌, Failure, rust_api_error, route_error, error,
  not_an_error,
}
use zamapay.Web.Relay.{RelayMethod}
use zamapay.Web.Relay.Payments.{RelayPaymentInput, Submission, Receipt}
use zamapay.Web.Relay.Laws.{Submits, relay_payment-sent}
use zamapay.Web.Relay.Post.Checks.{Claims}
use zamapay.Web.Relay.Server.{Server, RelayRequest, Reply, relayed_body}
use zamapay.Web.Relay.Post.{
  Checked, refused, relaying, relay_checked, caught_reply, reply_of, relayed, relayed_reply,
  after_gate, post,
}

-- A submission of one gasless payment that the body of the request claims.
abbrev pub IsClaimed : Server → RelayRequest → Submission → Type 0
IsClaimed server request s =
    (method : RelayMethod) × (input : RelayPaymentInput) × Claims server request method input
    × Submits server.viem method input s

module _ (server : Server) (request : RelayRequest) where
  -- A reply with a transaction tells of the one that was submitted and of its receipt.
  abbrev pub Relayed : Text → Receipt → List Submission → Type 0
  Relayed hash receipt submissions =
      (s : Submission) × (submissions ≡ s ∷ [])
      × (server.client.write_contract s ≡ ok hash)
      × (server.client.wait_for_transaction_receipt hash ≡ ok receipt)

  caught-IsError :
      (e : Failure) {chain : ℕ} {checkout hash : Text} {method : RelayMethod} {relayer : Text}
      {receipt : Receipt}
      → (caught_reply e).reply_body ≢ relayed_body chain checkout hash method relayer receipt
  unfolding caught_reply
  caught-IsError (rust_api_error pathname status body) h = cc
  caught-IsError (route_error message status) h = cc
  caught-IsError (error message) h = cc
  caught-IsError not_an_error h = cc

  waited-Relayed :
      (method : RelayMethod) (input : RelayPaymentInput) (tx_hash : Text) (waited : Attempt Receipt)
      {chain : ℕ} {checkout hash : Text} {method' : RelayMethod} {relayer : Text}
      {receipt : Receipt}
      → (reply_of (waited >>= λ r. ok (relayed_reply request method input tx_hash r))).reply_body
        ≡ relayed_body chain checkout hash method' relayer receipt
      → (tx_hash ≡ hash) × (waited ≡ ok receipt)
  waited-Relayed method input tx_hash (throw e) h = elim (caught-IsError e h) [ ]
  waited-Relayed method input tx_hash (ok r) h = (cc, cc)

  sent-Relayed :
      (method : RelayMethod) (input : RelayPaymentInput) (sent : Attempt Text) {chain : ℕ}
      {checkout hash : Text} {method' : RelayMethod} {relayer : Text} {receipt : Receipt}
      → (reply_of (relayed server request method input sent)).reply_body
        ≡ relayed_body chain checkout hash method' relayer receipt
      → (sent ≡ ok hash) × (server.client.wait_for_transaction_receipt hash ≡ ok receipt)
  sent-Relayed method input (throw e) h = elim (caught-IsError e h) [ ]
  sent-Relayed method input (ok tx_hash) h =
      let (same, w) = waited-Relayed method input tx_hash _ h in
      (ap ok same, ap server.client.wait_for_transaction_receipt (sym same) ∙ w)

  relay_checked-Relayed :
      (checked : Attempt Checked) {chain : ℕ} {checkout hash : Text} {method : RelayMethod}
      {relayer : Text} {receipt : Receipt}
      → (relay_checked server request checked).0.reply_body
        ≡ relayed_body chain checkout hash method relayer receipt
      → Relayed hash receipt (relay_checked server request checked).1
  unfolding relay_checked
  relay_checked-Relayed (throw e) h = elim (caught-IsError e h) [ ]
  relay_checked-Relayed (ok (refused code message)) h = cc
  relay_checked-Relayed (ok (relaying method input)) h =
      let (sent, w) = sent-Relayed method input _ h in
      let (s, only, written) = relay_payment-sent server.viem server.client method input sent in
      (s, only, written, w)

  after_gate-Relayed :
      (gate : Attempt Bool) {reply : Reply} {chain : ℕ} {checkout hash : Text}
      {method : RelayMethod} {relayer : Text} {receipt : Receipt}
      → (after_gate server request gate).0 ≡ ok reply
      → reply.reply_body ≡ relayed_body chain checkout hash method relayer receipt
      → Relayed hash receipt (after_gate server request gate).1
  unfolding after_gate
  after_gate-Relayed (throw e) hr hb = cc
  after_gate-Relayed (ok false) hr hb = cc
  after_gate-Relayed (ok true) hr hb =
      relay_checked-Relayed _ (ap (λ r. r.reply_body) (ok-injective hr) ∙ hb)

  -- A reply that reports a transaction reports the only one submitted, under the hash that the chain
  -- gave for it, with the receipt that was waited for.
  pub post-Relayed :
      {reply : Reply} {chain : ℕ} {checkout hash : Text} {method : RelayMethod} {relayer : Text}
      {receipt : Receipt}
      → (post server request).0 ≡ ok reply
      → reply.reply_body ≡ relayed_body chain checkout hash method relayer receipt
      → Relayed hash receipt (post server request).1
  unfolding post
  post-Relayed hr hb = after_gate-Relayed _ hr hb
