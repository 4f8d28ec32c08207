-- ===== src/Credit/Repository.antt =====
-- credit-service/src/credits/credit.repository.ts, operation by operation. The transaction's identifier
-- that `randomUUID` draws is an argument, `uuid`. The `fault` hook of the source, which only tests
-- pass, is left out.
pub mod Issue
pub mod Reserve
pub mod Checks
pub mod Release
pub mod Transfer
pub mod Effects
pub mod Replay
