-- ===== src/Manager.antt =====
-- cmd/main.go and what it calls to register the controllers and the webhooks: from the flags to the
-- start of the manager.
pub mod Options
pub mod Runtime
pub mod Main
pub mod Hardened
pub mod Calls
pub mod Order
