-- ===== src/Economy.antt =====
-- database/queries/crud.py, "Coin / Economy", "Deleted Accounts", "Registration & Referral" and the
-- transfer between users. A function returns the new state beside its own result.
pub mod Coins
pub mod Accounts
pub mod Transfer
pub mod Audit
