-- ===== src/Machines.antt =====
-- src/prodeo/machines: the hub's catalogue of agent machines, and the enrollment tokens.
pub mod Model
pub mod Registry
pub mod Enrollments
pub mod Tests
