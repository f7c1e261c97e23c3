-- ===== src/Tests/Economy.antt =====
-- Coins, accounts and the history (database/queries/crud.py).
use telegram_bot_new_version.History.{History}
use telegram_bot_new_version.Models.{Db}
use telegram_bot_new_version.Session.{get_user_by_tg_id, write_user}
use telegram_bot_new_version.Level.{Progress, start_progress, set_progress, add_xp_to_user}
use telegram_bot_new_version.Economy.Transfer.{transfer_coins}
use telegram_bot_new_version.Economy.Coins.{debit, credit}
use telegram_bot_new_version.Economy.Accounts.{Registration, complete_user_registration}
use telegram_bot_new_version.Economy.Accounts.Audit.{complete_twice}
use telegram_bot_new_version.Economy.Transfer.Exact.{transfer_moves}
use telegram_bot_new_version.Tests.Data.{alice, bob, db, db-alice, db-bob}
use telegram_bot_new_version.Level.Bounds.{Reached, add_xp_to_user-Reached}
use telegram_bot_new_version.Gifts.Engine.{purchase_gift}
use telegram_bot_new_version.Prelude.Int.{int_laws, pos}
use telegram_bot_new_version.Prelude.{ℕ, ◌≡◌, refl, false, none, some, arith}
use telegram_bot_new_version.Prelude.Table.{find}

abbrev bought : Db
bought = (purchase_gift 1 "ROSE" 2 db).0

abbrev paid_over : Db
paid_over = (transfer_coins 1 2 (pos 30) bought).0

transfer_moves_example :
    let (d', failure) = transfer_coins 1 2 (pos 30) db in
    (failure ≡ none)
    × (get_user_by_tg_id 1 d' ≡ some (debit (pos 30) alice))
    × (get_user_by_tg_id 2 d' ≡ some (credit (pos 30) bob))
    × (get_user_by_tg_id 3 d' ≡ get_user_by_tg_id 3 db)
transfer_moves_example =
    transfer_moves 1 2 (pos 30) db alice bob 3 (omega arith) (omega arith) (omega arith) db-alice
      db-bob (omega int_laws) (omega int_laws)

abbrev form : Registration
form = record {
  gender = "f";
  age = 30;
  province = "P";
  city = "Q";
  first_name = none;
  tags = none;
  profile_photo_file_id = none;
}

complete_twice_example :
    let d' = (complete_user_registration none 1 form db).0 in
    complete_user_registration none 1 form d' ≡ (d', false, none)
unfolding complete_user_registration telegram_bot_new_version.Prelude.Table.find
complete_twice_example = complete_twice none 1 form db none form refl

add_xp_to_user-Reached_example :
    (q : Progress) × (add_xp_to_user 1 400 db
      ≡ some (write_user 1 (set_progress q) db, q.leveled_up))
    × (n : ℕ) × Reached (start_progress 400 alice) q n
add_xp_to_user-Reached_example = add_xp_to_user-Reached 1 400 db alice db-alice
