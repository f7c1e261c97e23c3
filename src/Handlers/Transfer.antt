-- ===== src/Handlers/Transfer.antt =====
-- The coin transfer of bot/handlers/transfer.py: `_parse_and_validate_amount`,
-- `_execute_atomic_transfer`, and the dialogue around them.
pub mod Amount
pub mod Atomic
pub mod Moved
