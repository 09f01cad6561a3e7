-- ===== src/Scheduler.antt =====
-- src/prodeo/scheduler: cron expressions, schedules, and the service that fires them.
pub mod Model
pub mod Cron
pub mod Service
pub mod Tests
