-- ===== src/Credit/Economy.antt =====
-- credit-service/src/credits: the closed economy as an invariant of the tables.
pub mod Invariant
pub mod Lists
pub mod Issue
pub mod Reserve
pub mod Release
pub mod Transfer
pub mod Audit
pub mod Deliveries
pub mod Backing
pub mod Payable
pub mod Reachable
pub mod Settles
