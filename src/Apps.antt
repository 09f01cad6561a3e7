-- ===== src/Apps.antt =====
-- src/prodeo/apps: the supervisor of app extensions.
pub mod Environment
pub mod Supervisor
pub mod Tests
