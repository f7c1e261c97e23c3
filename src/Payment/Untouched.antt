-- ===== src/Payment/Untouched.antt =====
-- What the deliveries of the payment callback (api/routes/payment.py) leave alone: the table of orders.
use telegram_bot_new_version.Models.{Db}
use telegram_bot_new_version.Referral.{pay_commission, process_commission_on_purchase}
use telegram_bot_new_version.Vip.{VipPlan, start_term, activate_subscription}
use telegram_bot_new_version.Economy.Coins.{
  Event, try_debit, charge, deposit, process_coin_transaction,
}
use telegram_bot_new_version.Models.Gifts.{Source}
use telegram_bot_new_version.Models.Time.{DateTime}
use telegram_bot_new_version.Models.Coins.{Description, CoinPurchaseOrder}
use telegram_bot_new_version.Gifts.Inventory.{get_gift_type_by_code, add_to_inventory}
use telegram_bot_new_version.Gifts.Engine.{add_gift_transaction, gateway_log, credit_gift}
use telegram_bot_new_version.Payment.Callback.{
  Purchase, Env, ordered_quantity, deliver, coin_purchase,
}
use telegram_bot_new_version.Prelude.{
  Option-cases, ℕ, String, ◌≡◌, ◌∙◌, inl, inr, Bool, Option, none, some, List, arith,
}
use telegram_bot_new_version.Prelude.Int.{ℤ}

pub orders-process :
    (event : Option Event) (k : ℕ) (amount : ℤ) (text : Description) (ignore : Bool)
    → (reference : Option ℕ) (d : Db)
    → (process_coin_transaction event k amount text ignore reference d).0.orders ≡ d.orders
unfolding process_coin_transaction charge deposit try_debit
orders-process event k amount text ignore reference d = ground arith

pub orders-commission :
    (pct order buyer coins : ℕ) (d : Db)
    → (process_commission_on_purchase pct order buyer coins d).0.orders ≡ d.orders
unfolding process_commission_on_purchase pay_commission
orders-commission pct order buyer coins d = ground arith

pub orders-activate :
    (read_back : DateTime → DateTime) (plans : List VipPlan) (now k : ℕ) (code : String)
    → (order : Option ℕ) (d : Db)
    → (activate_subscription read_back plans now k code order d).0.orders ≡ d.orders
unfolding activate_subscription start_term
orders-activate read_back plans now k code order d = ground arith

orders-add :
    (k gift n : ℕ) (source : Source) (d : Db)
    → (add_to_inventory k gift n source d).orders ≡ d.orders
unfolding add_to_inventory
orders-add k gift n source d = ground arith

orders-credit :
    (k : ℕ) (code : String) (n : ℕ) (order : Option ℕ) (d : Db)
    → (credit_gift k code n order d).0.orders ≡ d.orders
unfolding credit_gift gateway_log add_gift_transaction
orders-credit k code n none d = elim (Option-cases (get_gift_type_by_code code d)) [
  | inl e ↦ ground arith
  | inr (g, e) ↦ ground (arith, orders-add k g.id n Source.gateway_purchase d)
]
orders-credit k code n (some order) d = elim (Option-cases (get_gift_type_by_code code d)) [
  | inl e ↦ ground arith
  | inr (g, e) ↦ ground (arith, orders-add k g.id n Source.gateway_purchase d)
]

module _ (env : Env) where
  pub orders-deliver :
      (bought : Purchase) (o : CoinPurchaseOrder) (d : Db)
      → (deliver env bought o d).orders ≡ d.orders
  unfolding deliver
  orders-deliver (coin_purchase p) o d =
      orders-commission env.pct o.id o.user_tg_id p.coin_amount _ ∙ orders-process _ _ _ _ _ _ d
  orders-deliver Purchase.vip_purchase o d = elim (Option-cases o.order_payload.plan_code) [
    | inl e ↦ ground arith
    | inr (code, e) ↦
        ground
          (arith, orders-activate env.read_back env.plans env.now o.user_tg_id code (some o.id) d)
  ]
  orders-deliver Purchase.gift_purchase o d = elim (Option-cases o.order_payload.gift_code) [
    | inl e ↦ ground arith
    | inr (code, e) ↦ ground (
      arith,
      orders-credit o.user_tg_id code (ordered_quantity o.order_payload.quantity) (some o.id) d,
    )
  ]
