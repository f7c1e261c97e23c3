-- ===== src/Gifts.antt =====
-- services/gift_engine.py: `class GiftEngine`. Quantities below 1 fall to the same guard as 0. Each
-- method ends in a commit; one that returns early has written nothing.
pub mod Inventory
pub mod Engine
pub mod Exact
pub mod Coins
pub mod Resale
