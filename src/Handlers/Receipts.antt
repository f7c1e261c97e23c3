-- ===== src/Handlers/Receipts.antt =====
-- Card-to-card orders: `vip_receipt_uploaded` of bot/handlers/vip.py stores one, and
-- `admin_verify_receipt` and `admin_reject_receipt` of bot/handlers/payments.py resolve it. An
-- exception is rolled back and leaves the state as it was. The messages are left out: they come after
-- the commit.
pub mod Audited
pub mod Resolved
pub mod Twice
use telegram_bot_new_version.Models.{Db}
use telegram_bot_new_version.Session.{get_user_by_tg_id}
use telegram_bot_new_version.Referral.{process_commission_on_purchase}
use telegram_bot_new_version.Vip.{activate_subscription, activated}
use telegram_bot_new_version.Economy.Coins.{process_coin_transaction}
use telegram_bot_new_version.Models.Coins.{
  CoinPackage, OrderStatus, PaymentMethod, OrderType, CoinPurchaseOrder, package_card,
}
use telegram_bot_new_version.Payment.Callback.{
  get_order, write_order, resolve_order, get_package, Env,
}
use telegram_bot_new_version.Prelude.{
  if◌then◌else◌, ℕ, suc, String, Bool, true, false, none, some, ◌∷◌,
}
use telegram_bot_new_version.Prelude.Int.{pos}

-- How the handler ends. `activation_failed` is any exception of the VIP manager.
pub data Verified : Type 0 where
  already_resolved no_package no_buyer activation_failed unknown_type : Verified
  vip_done coins_done : Verified

-- status in ("pending", "pending_receipt")
abbrev pub is_resolvable : OrderStatus → Bool
is_resolvable OrderStatus.pending = true
is_resolvable OrderStatus.pending_receipt = true
is_resolvable _ = false

-- The order of a VIP receipt: it has no package and no authority, and its payload names the plan.
unfoldable pub create_vip_receipt_order :
    (now tg_id : ℕ) (plan_code : String) (price : ℕ) → Db → Db × CoinPurchaseOrder
create_vip_receipt_order now tg_id plan_code price d =
    let order : CoinPurchaseOrder = record {
      id = d.next_id;
      user_tg_id = tg_id;
      package_id = none;
      payment_method = PaymentMethod.card;
      order_type = OrderType.vip_subscription;
      order_payload = record {
        price_toman_snapshot = none;
        price_toman = some price;
        plan_code = some plan_code;
        gift_code = none;
        quantity = none;
      };
      status = OrderStatus.pending_receipt;
      receipt_photo_file_id = none;
      gateway_authority = none;
      created_at = now;
      resolved_at = none;
    } in
    (record d { orders = order ∷ d.orders; next_id = suc d.next_id }, order)

module _ (env : Env) where
  abbrev pub complete : CoinPurchaseOrder → Db → Db
  complete o d = write_order o.id (resolve_order OrderStatus.completed env.now) d

  unfoldable pub verify_vip : CoinPurchaseOrder → Db → Db × Verified
  verify_vip o d = elim o.order_payload.plan_code [
    | none ↦ (d, activation_failed)
    | some code ↦
        let activation =
          activate_subscription env.read_back env.plans env.now o.user_tg_id code (some o.id) d in
        elim activation.1 [
          | activated sub ↦ (complete o activation.0, vip_done)
          | _ ↦ (d, activation_failed)
        ]
  ]

  -- The coins and the commission.
  unfoldable pub credit_package : CoinPackage → CoinPurchaseOrder → Db → Db
  credit_package p o d =
      let credited =
        (process_coin_transaction env.event o.user_tg_id (pos p.coin_amount)
          (package_card p.coin_amount) false none d).0 in
      (process_commission_on_purchase env.pct o.id o.user_tg_id p.coin_amount credited).0

  unfoldable pub verify_coins : CoinPurchaseOrder → Db → Db × Verified
  unfolding credit_package
  verify_coins o d = elim (get_package o.package_id d) [
    | none ↦ (d, no_package)
    | some p ↦ elim (get_user_by_tg_id o.user_tg_id d) [
      | none ↦ (d, no_buyer)
      | some u ↦ (complete o (credit_package p o d), coins_done)
    ]
  ]

  -- Everything past the load of the order, which is a plain SELECT.
  unfoldable pub verify_loaded : CoinPurchaseOrder → Db → Db × Verified
  unfolding verify_vip verify_coins
  verify_loaded o d =
      if is_resolvable o.status
      then elim o.order_type [
        | OrderType.vip_subscription ↦ verify_vip o d
        | OrderType.coins ↦ verify_coins o d
        | OrderType.gift_order ↦ (d, unknown_type)
        | OrderType.other name ↦ (d, unknown_type)
      ]
      else (d, already_resolved)

  unfoldable pub admin_verify_receipt : ℕ → Db → Db × Verified
  unfolding verify_loaded
  admin_verify_receipt order_id d = elim (get_order order_id d) [
    | none ↦ (d, already_resolved)
    | some o ↦ verify_loaded o d
  ]

  -- The second part tells whether the order was rejected.
  unfoldable pub admin_reject_receipt : ℕ → Db → Db × Bool
  admin_reject_receipt order_id d = elim (get_order order_id d) [
    | none ↦ (d, false)
    | some o ↦
        if is_resolvable o.status
        then (write_order o.id (resolve_order OrderStatus.rejected env.now) d, true)
        else (d, false)
  ]
