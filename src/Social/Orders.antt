-- ===== src/Social/Orders.antt =====
-- Packages and purchase orders of database/queries/crud.py.
pub mod Pending
use telegram_bot_new_version.Models.{Db}
use telegram_bot_new_version.Models.Coins.{
  CoinPackage, OrderStatus, PaymentMethod, OrderType, CoinPurchaseOrder,
}
use telegram_bot_new_version.Payment.Callback.{is_pending, package_key}
use telegram_bot_new_version.Prelude.{
  ltb, leb, if◌then◌else◌, count_if, keep_if, take, ℕ, suc, ◌+◌, ◌*◌, String, Bool, true, false,
  not, Option, none, some, List, [], ◌∷◌,
}
use telegram_bot_new_version.Prelude.Table.{update_by, find, update}

unfoldable pub create_coin_package : (coin_amount price_toman : ℕ) → Db → Db × CoinPackage
create_coin_package coin_amount price_toman d =
    let created : CoinPackage = record {
      id = d.next_id;
      coin_amount = coin_amount;
      price_toman = price_toman;
      is_active = true;
    } in
    (record d { coin_packages = created ∷ d.coin_packages; next_id = suc d.next_id }, created)

unfoldable pub set_price : ℕ → CoinPackage → CoinPackage
set_price price p = record p { price_toman = price }

unfoldable pub update_coin_package_price : (id price : ℕ) → Db → Db × Bool
unfolding set_price
update_coin_package_price id price d = elim (find package_key id d.coin_packages) [
  | none ↦ (d, false)
  | some p ↦
      (record d { coin_packages = update package_key id (set_price price) d.coin_packages }, true)
]

unfoldable pub flip_package : CoinPackage → CoinPackage
flip_package p = record p { is_active = not p.is_active }

unfoldable pub toggle_coin_package : ℕ → Db → Db × Option Bool
unfolding flip_package
toggle_coin_package id d = elim (find package_key id d.coin_packages) [
  | none ↦ (d, none)
  | some p ↦ (
    record d { coin_packages = update package_key id flip_package d.coin_packages },
    some (not p.is_active),
  )
]

-- The columns that the call does not name take their defaults.
unfoldable pub create_purchase_order :
    (now tg_id package_id : ℕ) → PaymentMethod → Option String → Db → Db × CoinPurchaseOrder
create_purchase_order now tg_id package_id method receipt d =
    let order : CoinPurchaseOrder = record {
      id = d.next_id;
      user_tg_id = tg_id;
      package_id = some package_id;
      payment_method = method;
      order_type = OrderType.coins;
      order_payload = record {
        price_toman_snapshot = none;
        price_toman = none;
        plan_code = none;
        gift_code = none;
        quantity = none;
      };
      status = OrderStatus.pending;
      receipt_photo_file_id = receipt;
      gateway_authority = none;
      created_at = now;
      resolved_at = none;
    } in
    (record d { orders = order ∷ d.orders; next_id = suc d.next_id }, order)

abbrev pub is_gateway : PaymentMethod → Bool
is_gateway PaymentMethod.gateway = true
is_gateway PaymentMethod.card = false

-- `created_at < now - hours`, with the difference moved to the other side.
abbrev pub is_abandoned : (now hours : ℕ) → CoinPurchaseOrder → Bool
is_abandoned now hours o =
    if is_gateway o.payment_method then ltb (o.created_at + hours * 3600) now else false

abbrev pub is_waiting : ℕ → CoinPurchaseOrder → Bool
is_waiting now o = if is_pending o.status then not (is_abandoned now 24 o) else false

-- ORDER BY created_at DESC
unfoldable pub insert_order : CoinPurchaseOrder → List CoinPurchaseOrder → List CoinPurchaseOrder
insert_order o [] = o ∷ []
insert_order o (x ∷ xs) =
    let rest = insert_order o xs in if leb x.created_at o.created_at then o ∷ x ∷ xs else x ∷ rest

unfoldable pub newest_first : List CoinPurchaseOrder → List CoinPurchaseOrder
unfolding insert_order
newest_first [] = []
newest_first (o ∷ os) = insert_order o (newest_first os)

unfoldable pub get_pending_orders : (now limit : ℕ) → Db → List CoinPurchaseOrder
unfolding newest_first
get_pending_orders now limit d = take limit (newest_first (keep_if (is_waiting now) d.orders))

unfoldable pub expire : CoinPurchaseOrder → CoinPurchaseOrder
expire o = record o { status = OrderStatus.expired }

abbrev pub is_expirable : (now hours : ℕ) → CoinPurchaseOrder → Bool
is_expirable now hours o = if is_pending o.status then is_abandoned now hours o else false

unfoldable pub expire_abandoned_orders : (now hours : ℕ) → Db → Db × ℕ
unfolding expire
expire_abandoned_orders now hours d = (
  record d { orders = update_by (is_expirable now hours) expire d.orders },
  count_if (is_expirable now hours) d.orders,
)
