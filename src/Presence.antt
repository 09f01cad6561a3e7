-- ===== src/Presence.antt =====
-- src/prodeo/presence: who is watching.
pub mod Tracker
pub mod Tests
