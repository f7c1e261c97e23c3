-- ===== src/Handlers/Receipts/Resolved.antt =====
-- A receipt is resolved once (bot/handlers/payments.py).
use telegram_bot_new_version.Models.{Db}
use telegram_bot_new_version.Models.Coins.{CoinPackage, OrderStatus, CoinPurchaseOrder}
use telegram_bot_new_version.Payment.Settled.{get_order-write, get_order-id}
use telegram_bot_new_version.Payment.Callback.{
  order_key, get_order, write_order, resolve_order, Env, get_package,
}
use telegram_bot_new_version.Handlers.Receipts.{
  vip_done, coins_done, already_resolved, Verified, is_resolvable, credit_package, verify_loaded,
  admin_verify_receipt, admin_reject_receipt, already_resolved, verify_vip, verify_coins, pos,
  package_card,
}
use telegram_bot_new_version.Prelude.Table.{map_option, find}
use telegram_bot_new_version.Prelude.{
  ℕ, ◌≡◌, refl, ap, ◌∙◌, Bool, true, false, none, some, arith, Option-cases, inl, inr,
}
use telegram_bot_new_version.Vip.{activate_subscription}
use telegram_bot_new_version.Payment.Untouched.{orders-process, orders-commission, orders-activate}

abbrev pub is_done : Verified → Bool
is_done vip_done = true
is_done coins_done = true
is_done _ = false

-- The order is there and no handler of receipts touches it.
abbrev IsClosed : ℕ → Db → Type 0
IsClosed id d = map_option (λ o. is_resolvable o.status) (get_order id d) ≡ some false

resolved-IsClosed :
    (id : ℕ) (status : OrderStatus) (now : ℕ) (d e : Db) (o : CoinPurchaseOrder)
    → get_order id d ≡ some o
    → e.orders ≡ d.orders
    → is_resolvable status ≡ false
    → IsClosed id (write_order o.id (resolve_order status now) e)
unfolding get_order resolve_order
resolved-IsClosed id status now d e o found same shut =
    let own : o.id ≡ id = get_order-id id d o found in
    let kept : get_order id e ≡ some o = ap (find order_key id) same ∙ found in
    ground (arith, get_order-write id (resolve_order status now) e (λ r. refl))

module _ (env : Env) where
  orders-package :
      (p : CoinPackage) (o : CoinPurchaseOrder) (d : Db)
      → (credit_package env p o d).orders ≡ d.orders
  unfolding credit_package
  orders-package p o d =
      orders-commission env.pct o.id o.user_tg_id p.coin_amount _
      ∙ orders-process env.event o.user_tg_id (pos p.coin_amount) (package_card p.coin_amount) false
          none d

  closed-untouched :
      (id : ℕ) (d : Db)
      → IsClosed id d
      → (admin_verify_receipt env id d ≡ (d, already_resolved))
        × (admin_reject_receipt env id d ≡ (d, false))
  unfolding admin_verify_receipt verify_loaded admin_reject_receipt
  closed-untouched id d closed = ground arith

  vip-IsClosed :
      (id : ℕ) (d : Db) (o : CoinPurchaseOrder)
      → get_order id d ≡ some o
      → is_done (verify_vip env o d).1 ≡ true
      → IsClosed id (verify_vip env o d).0
  unfolding verify_vip
  vip-IsClosed id d o found done = elim (Option-cases o.order_payload.plan_code) [
    | inl e ↦ ground arith
    | inr (code, e) ↦
        let x =
          activate_subscription env.read_back env.plans env.now o.user_tg_id code (some o.id) d in
        ground (
          arith,
          resolved-IsClosed id OrderStatus.completed env.now d x.0 o found
              (orders-activate env.read_back env.plans env.now o.user_tg_id code (some o.id) d)
              refl,
        )
  ]

  coins-IsClosed :
      (id : ℕ) (d : Db) (o : CoinPurchaseOrder)
      → get_order id d ≡ some o
      → is_done (verify_coins env o d).1 ≡ true
      → IsClosed id (verify_coins env o d).0
  unfolding verify_coins
  coins-IsClosed id d o found done = elim (Option-cases (get_package o.package_id d)) [
    | inl e ↦ ground arith
    | inr (p, e) ↦ ground (
      arith,
      resolved-IsClosed id OrderStatus.completed env.now d (credit_package env p o d) o found
          (orders-package p o d) refl,
    )
  ]

  verify-IsClosed :
      (id : ℕ) (d : Db)
      → is_done (admin_verify_receipt env id d).1 ≡ true
      → IsClosed id (admin_verify_receipt env id d).0
  unfolding admin_verify_receipt verify_loaded
  verify-IsClosed id d done = elim (Option-cases (get_order id d)) [
    | inl e ↦ ground arith
    | inr (o, e) ↦ ground (arith, vip-IsClosed id d o e, coins-IsClosed id d o e)
  ]

  reject-IsClosed :
      (id : ℕ) (d : Db)
      → (admin_reject_receipt env id d).1 ≡ true
      → IsClosed id (admin_reject_receipt env id d).0
  unfolding admin_reject_receipt
  reject-IsClosed id d done = elim (Option-cases (get_order id d)) [
    | inl e ↦ ground arith
    | inr (o, e) ↦
        ground (arith, resolved-IsClosed id OrderStatus.rejected env.now d d o e refl refl)
  ]

-- What the admin who comes first has done.
pub data FirstDecision (env : Env) (id : ℕ) (d : Db) : Db → Type 0 where
  verified :
      is_done (admin_verify_receipt env id d).1 ≡ true
      → FirstDecision env id d (admin_verify_receipt env id d).0
  rejected :
      (admin_reject_receipt env id d).1 ≡ true
      → FirstDecision env id d (admin_reject_receipt env id d).0

-- One admin after the other: after a receipt is verified or rejected, whoever decides next, at any time
-- and under any settings, is told that it is resolved, and changes nothing.
pub decided_once :
    (env later : Env) (id : ℕ) (d e : Db)
    → FirstDecision env id d e
    → (admin_verify_receipt later id e ≡ (e, already_resolved))
      × (admin_reject_receipt later id e ≡ (e, false))
decided_once env later id d _ (FirstDecision.verified h) =
    closed-untouched later id _ (verify-IsClosed env id d h)
decided_once env later id d _ (FirstDecision.rejected h) =
    closed-untouched later id _ (reject-IsClosed env id d h)
