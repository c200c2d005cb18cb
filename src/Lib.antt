-- ===== src/Lib.antt =====
-- ZamaPay's TypeScript: the server SDK `@zamapay/server` (packages/zamapay-server) and the logic
-- of the web app (apps/web) that is not its pages.
--
-- A merchant's server creates checkouts with the SDK's client, which sends its requests with
-- retries to the web app's API, and checks the webhooks that it receives. The web app's relayer
-- route submits the gasless payments of a checkout that the Rust API describes; gates decide who
-- may use it.
--
-- Which file models which part:
-- - Prelude: lists, JavaScript strings as lists of UTF-16 units (Prelude/Text), decimal numerals
--   (Prelude/Decimal), and what a call returns or throws with the laws of its chains
--   (Prelude/Outcome).
-- - Js: JavaScript's unknown values and numbers (Js/Numeric), the doubles of big integers
--   (Js/Rounding) and base64 (Js/Base64).
-- - Sdk/Errors, Sdk/Rails, Sdk/Result: packages/zamapay-server/src/errors.ts and rails.ts, and
--   the errors that a `catch` tells apart.
-- - Sdk/Request with Delay, ResponseHeaders and Loop: packages/zamapay-server/src/request.ts.
--   `ZamaPayRequestSender.request` is `request`; its loop is `attempts`, which takes the history
--   of requests and sleeps and returns it longer.
-- - Sdk/Webhooks with Secret and Words: packages/zamapay-server/src/webhooks.ts, `verifyWebhook`
--   as `verify_webhook`, and so on.
-- - Sdk/Client with State and Body: packages/zamapay-server/src/client.ts, its methods as
--   functions of the client's state.
-- - Web/Amounts with Digits: apps/web/lib/amount-format.ts.
-- - Web/Project with Seen and Symbols: apps/web/lib/project-amounts.ts and
--   apps/web/lib/payment-rails.ts.
-- - Web/Api with Portal: apps/web/lib/api.ts, its fetch helpers and the calls of the session and
--   the portal, and apps/web/lib/merchant-portal.ts.
-- - Web/Environment: the keys of apps/web/lib/runtime-profile.ts and
--   apps/web/lib/contract-environment.ts.
-- - Web/Funding with Order and Typed: apps/web/components/checkout/evm-funding.ts, the choice of
--   a funding action, its gas limit and the data that a wallet signs.
-- - Web/Gates: apps/web/lib/dev-signer-gate.ts.
-- - Web/Errors: the errors of apps/web/lib/rust-api-transport.ts.
-- - Web/Wallet: apps/web/lib/wallet.ts; a call takes the requests that the provider had before
--   and returns them longer.
-- - Web/Checkout with Payer, Waiting and Bounds:
--   apps/web/components/checkout/checkout-helpers.ts; `resolvePayerAddress` is
--   `resolve_payer_address`, and `waitForEvmPaymentProjection` is
--   `wait_for_evm_payment_projection` with the milliseconds waited.
-- - Web/Transport: apps/web/lib/rust-api-transport.ts, and the routes
--   apps/web/app/api/billing/[...path]/route.ts and
--   apps/web/app/api/projects/[[...path]]/route.ts that only pass requests on.
-- - Web/Session: the routes verify, logout and nonce under apps/web/app/api/auth.
-- - Web/DevSigner: apps/web/app/api/dev/sign-message/route.ts, with the messages signed, and
--   apps/web/app/api/dev/local-session/route.ts.
-- - Web/ChainInvoice: apps/web/app/api/dev/local-chain-invoice/route.ts, with the invoices that
--   it creates.
-- - Web/RuntimeUrls and Web/Finality: the URL and the finality settings of
--   apps/web/lib/runtime-profile.ts.
-- - Web/Decrypt: the public decryption of apps/web/lib/zama-relayer-browser.ts,
--   `publicDecryptSepoliaBool` as `public_decrypt_sepolia_bool`, with the attempts, reports and
--   waits that it makes.
-- - Web/Withdraws with Views and Verified: the pending withdrawals of
--   apps/web/components/merchant/PaymentProjectWithdraw.ts. The storage is the text that a page
--   holds under the key.
-- - Web/Receipts, Web/Finalize and Web/Growth:
--   apps/web/app/api/checkout/project-finalized-payment/route.ts and
--   apps/web/app/api/billing/project-growth/route.ts, and what they share; each `POST` gives its
--   reply with what it posts to the Rust API.
-- - Web/LocalWithdraw and Web/PrivateWithdraw: apps/web/app/api/dev/local-evm-withdraw/route.ts
--   and apps/web/app/api/dev/local-private-withdraw/route.ts.
-- - Web/Relay with Payments, Server and Post:
--   apps/web/app/api/checkout/[checkoutId]/evm-relay/route.ts. The handler `POST` is `post`,
--   which gives its reply with the transactions submitted.
--
-- Numbers, bounds and fuel: a JavaScript number is an integer, a dyadic fraction, an infinity or
-- NaN; minus zero counts as zero and products are exact. Big integers are unbounded, as in
-- JavaScript. Letters change case within ASCII. The retry loop recurses on the retries left, 5 at
-- most, so it takes no fuel, and so does the public decryption on the attempts left, whose number
-- of retries is whole here, and the eight rounds of the waiting for a projection; the double of a
-- `uint64` is found with eleven halvings, which bring a number below 2 ^ 64 below 2 ^ 53;
-- numerals are written on fuel above the number, which is enough since a tenth of a number above
-- 0 is smaller.
--
-- Parameters: fetch, the clock, JSON, the browser's storage quota, random bytes, the manifests of
-- deployed contracts, the FHE relayer, the finalization, submission and creation of invoices on
-- the chains (apps/web/lib/local-fhevm-dev.ts and apps/web/lib/sepolia-fhevm-server.ts),
-- Date.parse, HMAC, UTF-8, URL parsing, locale formatting and viem. JSON that the source casts to
-- a declared type is read by a parser into a record of the fields used.
--
-- Not modelled: the pages and React components, the FHE library with the code that encrypts by
-- it, the demo shop, the Rust services and the contracts. The client's methods run one after the
-- other. The texts of errors that the SDK raises itself are left out.
pub mod Prelude
pub mod Js
pub mod Sdk
pub mod Web
