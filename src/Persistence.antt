-- ===== src/Persistence.antt =====
-- src/prodeo/persistence: the event store.
pub mod Store
pub mod Tests
