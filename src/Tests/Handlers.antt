-- ===== src/Tests/Handlers.antt =====
-- Loot boxes, the coin transfer and the receipts (bot/handlers).
use telegram_bot_new_version.Models.{Db}
use telegram_bot_new_version.Session.{get_user_by_tg_id}
use telegram_bot_new_version.Tests.Data.{
  alice, bob, coin_order, db, env, db-alice, db-bob, db-IsAudited,
}
use telegram_bot_new_version.Models.Users.{User}
use telegram_bot_new_version.Models.Coins.{CoinPurchaseOrder}
use telegram_bot_new_version.Session.Ledger.{logged, IsAudited}
use telegram_bot_new_version.Payment.Callback.{get_order, get_package}
use telegram_bot_new_version.Handlers.Receipts.{
  verify_coins, verify_loaded, admin_verify_receipt, admin_reject_receipt, already_resolved,
}
use telegram_bot_new_version.Handlers.Gacha.{
  Reward, select_reward, open_lootbox, xp_reward, coin_reward, opened,
}
use telegram_bot_new_version.Handlers.Gacha.Opened.{lootbox_spent}
use telegram_bot_new_version.Handlers.Receipts.Resolved.{is_done, FirstDecision, decided_once}
use telegram_bot_new_version.Handlers.Transfer.Atomic.{
  write_balances, execute_atomic_transfer, moved, between,
}
use telegram_bot_new_version.Handlers.Transfer.Moved.{atomic_exact, unlogged}
use telegram_bot_new_version.Prelude.Table.{find}
use telegram_bot_new_version.Prelude.{
  count_if, ℕ, ◌+◌, ◌≤◌, ◌≡◌, refl, true, false, none, some, [], ◌∷◌, arith,
}
use telegram_bot_new_version.Prelude.Int.{◌+ℤ◌, ◌-ℤ◌, ◌≤ℤ◌, int_laws, pos}

abbrev boxed : Db
boxed = record db { users = record alice { lootbox_count = 2 } ∷ bob ∷ [] }

abbrev ten_xp : Reward
ten_xp = record { chance = 600000000; kind = xp_reward; amount = 10 }

abbrev five_coins : Reward
five_coins = record { chance = 400000000; kind = coin_reward; amount = 5 }

lootbox_spent_example :
    let (d', answer) = open_lootbox false none (ten_xp ∷ (five_coins ∷ [])) 700000000 1 boxed in
    (answer ≡ opened (select_reward 700000000 ten_xp (five_coins ∷ [])))
    × (v : User) × (n : ℕ) × (get_user_by_tg_id 1 d' ≡ some v)
    × (v.lootbox_count + 1 ≡ (record alice { lootbox_count = 2 }).lootbox_count + n)
    × (v.level ≡ (record alice { lootbox_count = 2 }).level + n)
unfolding telegram_bot_new_version.Prelude.Table.find
lootbox_spent_example =
    lootbox_spent none ten_xp (five_coins ∷ []) 700000000 1 boxed
      (record alice { lootbox_count = 2 }) refl (omega arith) (omega arith)

transfer_made : (execute_atomic_transfer 1 2 30 db).1 ≡ moved
unfolding execute_atomic_transfer write_balances telegram_bot_new_version.Prelude.Table.find
    telegram_bot_new_version.Prelude.count_if ◌-ℤ◌ ◌+ℤ◌
transfer_made = refl

bob-IsAudited : IsAudited 2 db
unfolding logged telegram_bot_new_version.Prelude.Table.find
    telegram_bot_new_version.Prelude.Int.◌+ℤ◌
bob-IsAudited = (refl, omega int_laws)

atomic_exact_example :
    let d' = (execute_atomic_transfer 1 2 30 db).0 in
    (1 ≤ 30)
    × (pos 30 ≤ℤ alice.coin_balance)
    × (count_if (between 1 2) db.blocks ≡ 0)
    × (get_user_by_tg_id 1 d' ≡ some (record alice { coin_balance = alice.coin_balance -ℤ pos 30 }))
    × (get_user_by_tg_id 2 d' ≡ some (record bob { coin_balance = bob.coin_balance +ℤ pos 30 }))
    × (get_user_by_tg_id 3 d' ≡ get_user_by_tg_id 3 db)
atomic_exact_example =
    atomic_exact 1 2 30 db alice bob 3 db-alice db-bob transfer_made (omega arith) (omega arith)

unlogged_example :
    let d' = (execute_atomic_transfer 1 2 30 db).0 in
    (d'.coin_transactions ≡ db.coin_transactions) × ¬ IsAudited 1 d' × ¬ IsAudited 2 d'
unlogged_example =
    unlogged 1 2 30 db alice bob db-alice db-bob transfer_made db-IsAudited bob-IsAudited

coins_verified : is_done (admin_verify_receipt env 40 db).1 ≡ true
unfolding admin_verify_receipt verify_loaded verify_coins get_order get_package
    telegram_bot_new_version.Prelude.Table.find
coins_verified = refl

decided_once_example :
    (admin_verify_receipt (record env { now = 2000 }) 40 (admin_verify_receipt env 40 db).0
      ≡ ((admin_verify_receipt env 40 db).0, already_resolved))
    × (admin_reject_receipt (record env { now = 2000 }) 40 (admin_verify_receipt env 40 db).0
        ≡ ((admin_verify_receipt env 40 db).0, false))
decided_once_example =
    decided_once env (record env { now = 2000 }) 40 db (admin_verify_receipt env 40 db).0
      (FirstDecision.verified coins_verified)

-- An order of Alice, whom nobody has referred.
abbrev order_of_alice : CoinPurchaseOrder
order_of_alice = record coin_order { user_tg_id = 1 }
