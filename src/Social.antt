-- ===== src/Social.antt =====
-- Likes, friends, blocks, comments and orders of database/queries/crud.py.
pub mod Likes
pub mod Friends
pub mod Comments
pub mod Orders
