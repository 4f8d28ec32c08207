-- ===== src/Credit/Repository/Effects.antt =====
-- credit-service/src/credits/credit.repository.ts: what each operation, when it returns, has changed in
-- the tables.
pub mod Checks
pub mod Issue
pub mod Reserve
pub mod Release
pub mod Transfer
