-- ===== src/Mediation.antt =====
-- src/prodeo/mediation: interactions and the Mediation Service.
pub mod Model
pub mod Service
pub mod Tests
