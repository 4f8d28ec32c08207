-- ===== src/Platform.antt =====
-- platform/src/events: what every service uses to send and to receive events.
pub mod Outbox
pub mod Consumer
mod Examples
