-- ===== src/Economy/Coins.antt =====
-- `process_coin_transaction` of database/queries/crud.py. Its `user` argument is a row that the
-- session has loaded and that no other transaction has changed since, so that the object in memory
-- and the row take the same change.
pub mod Keeps
use telegram_bot_new_version.Prelude.{if◌then◌else◌, ℕ, Bool, true, false, Option, none, some}
use telegram_bot_new_version.Prelude.Int.{ℤ, ◌+ℤ◌, ◌-ℤ◌, neg, ltb_ℤ, leb_ℤ, pos}
use telegram_bot_new_version.Models.Users.{User}
use telegram_bot_new_version.Models.{Db}
use telegram_bot_new_version.Models.Coins.{Description, with_multiplier, CoinTransaction, generic}
use telegram_bot_new_version.Session.{get_user_by_tg_id, add_coin_transaction, write_user}

-- `bot:active_event_multiplier` in Redis, as the code uses it: what `int(amount * float(text))` gives,
-- and whether the number is above 1. A missing key, a text that is no number and a failed call are
-- all `none`, which leaves the amount alone.
pub record Event : Type 0 where
  pub scale : ℤ → ℤ
  pub above_one : Bool

-- coin_balance - n, total_spent_coins + n
unfoldable pub debit : ℤ → User → User
debit n u = record u {
  coin_balance = u.coin_balance -ℤ n;
  total_spent_coins = u.total_spent_coins +ℤ n;
}

-- coin_balance + n, total_earned_coins + n
unfoldable pub credit : ℤ → User → User
credit n u = record u {
  coin_balance = u.coin_balance +ℤ n;
  total_earned_coins = u.total_earned_coins +ℤ n;
}

-- UPDATE … WHERE tg_id AND coin_balance >= deduction, and whether a row was written.
unfoldable pub try_debit : ℕ → ℤ → Db → Db × Bool
try_debit tg_id n d = elim (get_user_by_tg_id tg_id d) [
  | none ↦ (d, false)
  | some u ↦ if leb_ℤ n u.coin_balance then (write_user tg_id (debit n) d, true) else (d, false)
]

-- What the amount and its description become under a running event.
unfoldable pub apply_event : Option Event → Bool → ℤ → Description → ℤ × Description
apply_event none ignore amount text = (amount, text)
apply_event (some e) ignore amount text =
    if ignore
    then (amount, text)
    else (e.scale amount, if e.above_one then with_multiplier text else text)

unfoldable pub log_entry : ℕ → ℤ → Description → Option ℕ → CoinTransaction
log_entry tg_id amount text reference = record {
  user_id = tg_id;
  amount = amount;
  description = text;
  reference_id = reference;
  tx_type = generic;
}

-- The branch of a negative amount: nothing is logged where no row was written.
unfoldable pub charge : ℕ → ℤ → Description → Option ℕ → Db → Db × Bool
unfolding debit try_debit log_entry
charge tg_id amount text reference d =
    let (d', done) = try_debit tg_id (neg amount) d in
    if done
    then (add_coin_transaction (log_entry tg_id amount text reference) d', true)
    else (d, false)

-- The other branch.
unfoldable pub deposit : Option Event → ℕ → ℤ → Description → Bool → Option ℕ → Db → Db
unfolding credit apply_event log_entry
deposit event tg_id amount text ignore reference d =
    let (final, text') = apply_event event ignore amount text in
    add_coin_transaction (log_entry tg_id final text' reference) (write_user tg_id (credit final) d)

unfoldable pub process_coin_transaction :
    Option Event → ℕ → ℤ → Description → Bool → Option ℕ → Db → Db × Bool
process_coin_transaction event tg_id amount text ignore reference d =
    if ltb_ℤ amount (pos 0)
    then charge tg_id amount text reference d
    else (deposit event tg_id amount text ignore reference d, true)
