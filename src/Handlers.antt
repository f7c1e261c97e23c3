-- ===== src/Handlers.antt =====
-- The dialogues of bot/handlers/ that decide something of their own, past the queries and services
-- they call.
pub mod Gacha
pub mod Transfer
pub mod Receipts
pub mod Questionnaire
pub mod Consent
pub mod Beginning
