-- ===== src/Payment.antt =====
-- Payments through the gateway: services/zarinpal.py (`verify_payment`) and the callback of
-- api/routes/payment.py.
pub mod Gateway
pub mod Limiter
pub mod Callback
pub mod Untouched
pub mod Settled
pub mod Delivery
