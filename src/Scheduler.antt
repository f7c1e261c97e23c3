-- ===== src/Scheduler.antt =====
-- services/scheduler.py: `class DatingScheduler` and the workers beside it.
pub mod Store
pub mod Termination
pub mod Ended
pub mod Race
pub mod Winner
pub mod Progress
pub mod Alone
pub mod Poll
pub mod Polled
pub mod Reminder
