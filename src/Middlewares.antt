-- ===== src/Middlewares.antt =====
-- bot/middlewares/: what stands between an update and its handler.
pub mod LockTables
pub mod StateLock
pub mod AntiSpam
