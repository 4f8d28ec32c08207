-- ===== src/Credit/Db.antt =====
-- credit-service/src/db/schema.ts: the tables of the credit service with their constraints, and the
-- statements that credit-service/src/credits/credit.repository.ts runs on them.
-- A table is a list of rows, the newest first. A statement that violates a constraint raises, and
-- the transaction around it rolls back, so an error carries no state. Identifiers that nothing reads
-- back (of ledger entries, alerts and events) and the columns that the database fills with the time
-- are left out.
mod Tables
mod Statements
pub use Tables.*
unfoldable pub use Statements.*
