-- ===== src/Sdk.antt =====
-- The server SDK, `@zamapay/server`.
pub mod Errors
pub mod Result
pub mod Rails
pub mod Request
pub mod Webhooks
pub mod Client
mod Tests
