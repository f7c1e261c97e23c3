-- ===== src/Economy/Transfer.antt =====
-- `transfer_coins` of database/queries/crud.py.
pub mod Exact
pub mod Audit
use telegram_bot_new_version.Prelude.{if◌then◌else◌, ℕ, true, Option, none, some}
use telegram_bot_new_version.Prelude.Int.{ℤ, neg, ltb_ℤ, leb_ℤ, pos}
use telegram_bot_new_version.Models.Coins.{Description, transfer_out, transfer_in}
use telegram_bot_new_version.Models.{Db}
use telegram_bot_new_version.Economy.Coins.{process_coin_transaction}
use telegram_bot_new_version.Session.{get_user_by_tg_id}

pub data TransferError : Type 0 where
  not_positive no_sender no_receiver short lost_race : TransferError

-- The two postings: the sender's first, and the receiver's only if that one was made.
pub move_coins : ℕ → ℕ → ℤ → Description → Description → Db → Db × Option TransferError
move_coins from_id to_id amount sender_text receiver_text d =
    let (d', success) =
      process_coin_transaction none from_id (neg amount) sender_text true none d in
    if success
    then ((process_coin_transaction none to_id amount receiver_text true none d').0, none)
    else (d', some lost_race)

-- Both rows are locked first, in the order of their ids, so nothing changes between the checks and
-- the writes. `ensure_public_id_exists` touches only `public_id`, which the descriptions cite.
unfoldable pub transfer_coins : ℕ → ℕ → ℤ → Db → Db × Option TransferError
unfolding move_coins
transfer_coins from_id to_id amount d =
    if leb_ℤ amount (pos 0) then (d, some not_positive) else elim (get_user_by_tg_id from_id d) [
      | none ↦ (d, some no_sender)
      | some sender ↦ elim (get_user_by_tg_id to_id d) [
        | none ↦ (d, some no_receiver)
        | some receiver ↦
            if ltb_ℤ sender.coin_balance amount
            then (d, some short)
            else move_coins from_id to_id amount (transfer_out receiver.public_id)
                (transfer_in sender.public_id) d
      ]
    ]
