-- ===== src/Session.antt =====
-- The statements on the user table and the coin log that the queries and services share:
-- `get_user_by_tg_id` (database/queries/crud.py), the row updates, and `session.add` of a
-- CoinTransaction.
pub mod Ledger
use telegram_bot_new_version.Prelude.{ℕ, ◌+◌, Bool, Option, none, some, ◌∷◌, is_some}
use telegram_bot_new_version.Prelude.Table.{find, update}
use telegram_bot_new_version.Models.{Db}
use telegram_bot_new_version.Models.Users.{User}
use telegram_bot_new_version.Models.Coins.{CoinTransaction}

abbrev pub user_key : User → ℕ
user_key u = u.tg_id

-- `get_user_by_tg_id`, and `get_user_by_tg_id_for_update`, which differs by a row lock.
abbrev pub get_user_by_tg_id : ℕ → Db → Option User
get_user_by_tg_id tg_id d = find user_key tg_id d.users

-- Attribute writes to a loaded user, or UPDATE … WHERE tg_id.
abbrev pub write_user : ℕ → (User → User) → Db → Db
write_user tg_id f d = record d { users = update user_key tg_id f d.users }

abbrev pub add_coin_transaction : CoinTransaction → Db → Db
add_coin_transaction t d = record d { coin_transactions = t ∷ d.coin_transactions }
