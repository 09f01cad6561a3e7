-- ===== src/Notify.antt =====
-- src/prodeo/notify: the routing of events to notification channels.
pub mod Service
pub mod Tests
