-- ===== src/Order/Lifecycle.antt =====
-- order-service/src/orders/orders.repository.ts: how an errand's row moves.
pub mod Store
pub mod Patch
pub mod Transition
pub mod Accept
pub mod Shape
pub mod Rows
pub mod Valid
pub mod Announce
pub mod Outcome
pub mod Acceptance
pub mod Race
