-- ===== src/Sdk/Tests.antt =====
-- The SDK at concrete inputs: runs of its functions, and its theorems where their hypotheses hold.
mod Requests
mod Hooks
mod Checkouts
