-- ===== src/History/Audit.antt =====
-- The coin log along any history of operations.
use telegram_bot_new_version.History.{History}
