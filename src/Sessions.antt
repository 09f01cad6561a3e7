-- ===== src/Sessions.antt =====
-- src/prodeo/sessions: the session state machine, the session records and the Session Registry.
pub mod State
pub mod Model
pub mod Registry
pub mod Tests
