-- ===== src/Tests.antt =====
-- Runs on a small database, and the theorems at concrete inputs.
pub mod Data
pub mod Economy
pub mod Services
pub mod Payments
pub mod Social
pub mod Matching
pub mod Scheduler
pub mod Middlewares
pub mod Handlers
pub mod Workers
pub mod Questionnaire
pub mod Beginning
