-- ===== src/Handlers/Receipts/Twice.antt =====
-- Two admins at one receipt (bot/handlers/payments.py): the order is read by a plain SELECT, without a
-- lock, so both may have it pending in hand before either commits.
