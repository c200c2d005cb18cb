-- ===== src/Web.antt =====
-- The logic of the web app (apps/web) that is not its pages.
pub mod Amounts
pub mod Api
pub mod ChainInvoice
pub mod Checkout
pub mod Decrypt
pub mod DevSigner
pub mod Environment
pub mod Errors
pub mod Finality
pub mod Finalize
pub mod Funding
pub mod Gates
pub mod Growth
pub mod LocalWithdraw
pub mod PrivateWithdraw
pub mod Project
pub mod Receipts
pub mod Relay
pub mod RuntimeUrls
pub mod Session
pub mod Transport
pub mod Wallet
pub mod Withdraws
mod Tests
