-- ===== src/Gifts/Engine.antt =====
-- services/gift_engine.py: `sell_gift`, `purchase_gift`, `credit_gift`, `transfer_gift`.
use telegram_bot_new_version.Models.{Db}
use telegram_bot_new_version.Session.{get_user_by_tg_id, write_user, add_coin_transaction}
use telegram_bot_new_version.Economy.Coins.{debit}
use telegram_bot_new_version.Models.Users.{User}
use telegram_bot_new_version.Models.Gifts.{GiftType, Source, TxKind}
use telegram_bot_new_version.Models.Coins.{
  Description, TxType, CoinTransaction, gift_sell_tx, gift_purchase, gift_gateway,
  gift_gateway_purchase,
}
use telegram_bot_new_version.Gifts.Inventory.{
  get_gift_type_by_code, write_user_gift, take_gift, add_to_inventory, held,
}
use telegram_bot_new_version.Prelude.{
  ltb, ◌==◌, if◌then◌else◌, ℕ, ◌+◌, ◌*◌, ◌/◌, String, ◌||◌, Option, none, some, ◌∷◌,
}
use telegram_bot_new_version.Prelude.Int.{ℤ, ◌+ℤ◌, neg, ltb_ℤ, pos}

pub data GiftError : Type 0 where
  bad_quantity no_gift no_user too_few short_of_coins unavailable to_self : GiftError

unfoldable pub add_gift_transaction : ℕ → ℕ → ℕ → ℕ → TxKind → ℤ → Db → Db
add_gift_transaction sender receiver gift n kind coins d = record d {
  gift_transactions =
      record {
        id = d.next_id;
        sender_tg_id = sender;
        receiver_tg_id = receiver;
        gift_type_id = gift;
        quantity = n;
        tx_kind = kind;
        coins_spent = coins;
      }
      ∷ d.gift_transactions;
  next_id = d.next_id + 1;
}

unfoldable pub gift_log : ℕ → ℤ → Description → ℕ → TxType → CoinTransaction
gift_log tg_id amount text gift_tx kind = record {
  user_id = tg_id;
  amount = amount;
  description = text;
  reference_id = some gift_tx;
  tx_type = kind;
}

-- `(gift_type.price_coins * 80) // 100`
abbrev pub sell_price : GiftType → ℕ
sell_price g = g.price_coins * 80 / 100

-- `coin_balance += total_earned`; the other two coin columns are left as they are.
unfoldable pub refund : ℤ → User → User
refund n u = record u { coin_balance = u.coin_balance +ℤ n }

unfoldable pub sell : ℕ → GiftType → ℕ → Db → Db
unfolding take_gift write_user_gift refund add_gift_transaction gift_log
sell tg_id g n d =
    let earned = pos (sell_price g * n) in
    let taken = write_user_gift tg_id g.id (take_gift n Source.sell) d in
    let logged = add_gift_transaction tg_id tg_id g.id n TxKind.sell (neg earned) taken in
    add_coin_transaction
      (gift_log tg_id earned (Description.gift_sell n g.display_name) d.next_id gift_sell_tx)
      (write_user tg_id (refund earned) logged)

unfoldable pub sell_gift : ℕ → String → ℕ → Db → Db × Option GiftError
sell_gift tg_id code n d =
    if ltb n 1 then (d, some bad_quantity) else elim (get_gift_type_by_code code d) [
      | none ↦ (d, some no_gift)
      | some g ↦
          if ltb (held tg_id g.id d) n
          then (d, some too_few)
          else elim (get_user_by_tg_id tg_id d) [
            | none ↦ (d, some no_user)
            | some u ↦ (sell tg_id g n d, none)
          ]
    ]

-- The writes of a purchase: coins, inventory, both logs.
unfoldable pub buy : ℕ → GiftType → ℕ → Db → Db
unfolding add_gift_transaction gift_log debit
buy tg_id g n d =
    let total = pos (g.price_coins * n) in
    let paid = write_user tg_id (debit total) d in
    let stored = add_to_inventory tg_id g.id n Source.purchase paid in
    add_coin_transaction
      (gift_log tg_id (neg total) (Description.gift_buy n g.display_name) stored.next_id
        gift_purchase)
      (add_gift_transaction tg_id tg_id g.id n TxKind.purchase total stored)

unfoldable pub purchase_gift : ℕ → String → ℕ → Db → Db × Option GiftError
purchase_gift tg_id code n d =
    if ltb n 1 || ltb 100 n then (d, some bad_quantity) else elim (get_user_by_tg_id tg_id d) [
      | none ↦ (d, some no_user)
      | some u ↦ elim (get_gift_type_by_code code d) [
        | none ↦ (d, some unavailable)
        | some g ↦
            if g.is_active
            then (if ltb_ℤ u.coin_balance (pos (g.price_coins * n))
                then (d, some short_of_coins)
                else (buy tg_id g n d, none))
            else (d, some unavailable)
      ]
    ]

-- The coin log of a gift that the gateway has paid: an entry of 0, where an order is named.
unfoldable pub gateway_log : ℕ → GiftType → ℕ → Option ℕ → ℕ → Db → Db
unfolding gift_log
gateway_log tg_id g n none gift_tx d = d
gateway_log tg_id g n (some order) gift_tx d =
    add_coin_transaction
      (gift_log tg_id (pos 0) (gift_gateway n g.display_name order) gift_tx gift_gateway_purchase) d

unfoldable pub credit_gift : ℕ → String → ℕ → Option ℕ → Db → Db × Option GiftError
unfolding gateway_log add_gift_transaction
credit_gift tg_id code n order d =
    if ltb n 1 || ltb 100 n then (d, some bad_quantity) else elim (get_gift_type_by_code code d) [
      | none ↦ (d, some unavailable)
      | some g ↦
          if g.is_active
          then (let stored = add_to_inventory tg_id g.id n Source.gateway_purchase d in
              (
                gateway_log tg_id g n order stored.next_id (
                    add_gift_transaction tg_id tg_id g.id n TxKind.gateway_purchase (pos 0) stored),
                none,
              ))
          else (d, some unavailable)
    ]

-- The writes of a transfer.
unfoldable pub give : ℕ → ℕ → GiftType → ℕ → Db → Db
unfolding add_gift_transaction
give sender receiver g n d = add_gift_transaction sender receiver g.id n TxKind.transfer (pos 0) (
    add_to_inventory receiver g.id n Source.transfer_in
      (write_user_gift sender g.id (take_gift n Source.transfer_out) d))

unfoldable pub transfer_gift : ℕ → ℕ → String → ℕ → Db → Db × Option GiftError
transfer_gift sender receiver code n d =
    if sender == receiver
    then (d, some to_self)
    else if ltb n 1
    then (d, some bad_quantity)
    else elim (get_gift_type_by_code code d) [
      | none ↦ (d, some no_gift)
      | some g ↦
          if ltb (held sender g.id d) n
          then (d, some too_few)
          else (give sender receiver g n d, none)
    ]
