-- ===== src/Credit/Repository/Replay.antt =====
-- credit-service/src/credits/credit.repository.ts: a request that is delivered again gets the recorded
-- answer, and moves nothing.
pub mod Reserve
pub mod Release
pub mod Transfer
