-- ===== src/Handlers/Transfer/Atomic.antt =====
-- `_execute_atomic_transfer` of bot/handlers/transfer.py. Both rows are locked, so nothing changes
-- between the checks and the writes.
use telegram_bot_new_version.Models.{Db}
use telegram_bot_new_version.Session.{get_user_by_tg_id, write_user}
use telegram_bot_new_version.Models.Users.{User}
use telegram_bot_new_version.Models.Social.{BlockList}
use telegram_bot_new_version.Prelude.{ltb, ◌==◌, if◌then◌else◌, count_if, ℕ, Bool, ◌||◌, none, some}
use telegram_bot_new_version.Prelude.Int.{ℤ, ◌+ℤ◌, ◌-ℤ◌, ltb_ℤ, pos}
use telegram_bot_new_version.Social.Friends.{is_block}

-- _DB_BIGINT_MAX
abbrev pub db_bigint_max : ℕ
db_bigint_max = 9223372036854775807

pub data Refusal : Type 0 where
  to_self not_positive too_large no_sender no_receiver blocked : Refusal
  not_enough negative receiver_full : Refusal

-- `many_blocks` is the MultipleResultsFound of `scalar_one_or_none` where each has blocked the other.
pub data Transfer : Type 0 where
  moved many_blocks : Transfer
  refused : Refusal → Transfer

-- The rows of the two that block either way.
abbrev pub between : ℕ → ℕ → BlockList → Bool
between a b row = is_block a b row || is_block b a row

unfoldable pub set_balance : ℤ → User → User
set_balance n u = record u { coin_balance = n }

-- The checks on the two balances and the two writes.
unfoldable pub write_balances : (sender receiver : User) → ℕ → Db → Db × Transfer
unfolding set_balance
write_balances sender receiver amount d =
    if ltb_ℤ sender.coin_balance (pos amount)
    then (d, refused not_enough)
    else let new_sender = sender.coin_balance -ℤ pos amount in
      let new_receiver = receiver.coin_balance +ℤ pos amount in
      if ltb_ℤ new_sender (pos 0)
      then (d, refused negative)
      else if ltb_ℤ (pos db_bigint_max) new_receiver
      then (d, refused receiver_full)
      else (
        write_user receiver.tg_id (set_balance new_receiver)
            (write_user sender.tg_id (set_balance new_sender) d),
        moved,
      )

unfoldable pub execute_atomic_transfer : (sender_id receiver_id amount : ℕ) → Db → Db × Transfer
unfolding write_balances
execute_atomic_transfer sender_id receiver_id amount d =
    if sender_id == receiver_id
    then (d, refused to_self)
    else if amount == 0
    then (d, refused not_positive)
    else if ltb db_bigint_max amount
    then (d, refused too_large)
    else elim (get_user_by_tg_id sender_id d) [
      | none ↦ (d, refused no_sender)
      | some sender ↦ elim (get_user_by_tg_id receiver_id d) [
        | none ↦ (d, refused no_receiver)
        | some receiver ↦
            let rows = count_if (between sender_id receiver_id) d.blocks in
            if rows == 0
            then write_balances sender receiver amount d
            else if rows == 1
            then (d, refused blocked)
            else (d, many_blocks)
      ]
    ]
