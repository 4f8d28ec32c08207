-- ===== src/Credit.antt =====
-- credit-service: the credit economy.
pub mod Types
pub mod Db
pub mod Repository
pub mod Measures
pub mod Invariants
pub mod Wallets
pub mod Consumers
pub mod Economy
mod Examples
