-- ===== src/Adapters.antt =====
-- src/prodeo/adapters: the adapter contract, the observations, and the Adapter Manager.
pub mod Model
pub mod Manager
pub mod Tests
