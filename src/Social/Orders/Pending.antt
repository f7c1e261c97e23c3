-- ===== src/Social/Orders/Pending.antt =====
-- Purchase orders (database/queries/crud.py): the pending list and the expiry agree.
use telegram_bot_new_version.Models.{Db}
use telegram_bot_new_version.Vip.{day}
use telegram_bot_new_version.Models.Coins.{CoinPurchaseOrder}
use telegram_bot_new_version.Prelude.Table.{update_by}
use telegram_bot_new_version.Prelude.{
  count_if, keep_if, take, ℕ, ◌≤◌, ◌≡◌, refl, ap, List, [], ◌∷◌, arith,
}
use telegram_bot_new_version.Social.Orders.{
  is_waiting, newest_first, get_pending_orders, expire, is_expirable, expire_abandoned_orders,
}

waiting-expired :
    (now hours : ℕ) (orders : List CoinPurchaseOrder)
    → 24 ≤ hours
    → keep_if (is_waiting now) (update_by (is_expirable now hours) expire orders)
      ≡ keep_if (is_waiting now) orders
unfolding keep_if update_by expire
waiting-expired now hours [] day = refl
waiting-expired now hours (o ∷ orders) day = ground (arith, waiting-expired now hours orders day)

none-expirable :
    (now hours : ℕ) (orders : List CoinPurchaseOrder)
    → count_if (is_expirable now hours) (update_by (is_expirable now hours) expire orders) ≡ 0
unfolding count_if update_by expire
none-expirable now hours [] = refl
none-expirable now hours (o ∷ orders) = ground (arith, none-expirable now hours orders)

-- Expiring orders abandoned for a day or more never takes one from the list that the admins see, which
-- has left them out already, and a second run at the same time finds none.
pub expire_abandoned_orders_lem :
    (now hours limit : ℕ) (d : Db)
    → 24 ≤ hours
    → let d' = (expire_abandoned_orders now hours d).0 in
      (get_pending_orders now limit d' ≡ get_pending_orders now limit d)
      × ((expire_abandoned_orders now hours d').1 ≡ 0)
unfolding expire_abandoned_orders get_pending_orders
expire_abandoned_orders_lem now hours limit d day = (
  ap (λ os. take limit (newest_first os)) (waiting-expired now hours d.orders day),
  none-expirable now hours d.orders,
)
