-- ===== src/Order.antt =====
-- The order service (order-service/src/orders).
pub mod Types
pub mod StateMachine
pub mod Lifecycle
pub mod Receipts
pub mod Results
pub mod Views
pub mod Service
pub mod Creation
pub mod Reads
pub mod Calls
pub mod Live
mod Examples
