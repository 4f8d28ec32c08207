-- ===== src/Order/StateMachine.antt =====
-- order-service/src/orders/order-state-machine.ts: the transition table of an errand and
-- `decideTransition`, which the runtime commands and the authorization matrix share.
pub mod Vocabulary
pub mod Table
pub mod Decide
pub mod Laws
pub mod Traces
pub mod Progress
pub mod Authority
