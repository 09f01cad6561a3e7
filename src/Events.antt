-- ===== src/Events.antt =====
-- src/prodeo/events: the event envelope, the type names, and where events go.
pub mod Types
pub mod Envelope
pub mod Host
