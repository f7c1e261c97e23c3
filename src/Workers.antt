-- ===== src/Workers.antt =====
-- The workers of services/scheduler.py beside DatingScheduler: QueueTimeoutWorker, ZombieCleanerWorker
-- and OnlineStatusWorker, one round of each.
pub mod Timeout
pub mod Zombies
pub mod Online
