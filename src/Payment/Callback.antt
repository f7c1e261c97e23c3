-- ===== src/Payment/Callback.antt =====
-- `zarinpal_callback` of api/routes/payment.py, behind the brute-force guard. Every branch that
-- answers writes what it has changed; the messages, pages and metrics are left out but for the page's kind.
use text.Mathlib.Text.{◌==◌ as str_eq}
use telegram_bot_new_version.Models.{Db}
use telegram_bot_new_version.Session.{get_user_by_tg_id}
use telegram_bot_new_version.Referral.{process_commission_on_purchase}
use telegram_bot_new_version.Vip.{VipPlan, activate_subscription}
use telegram_bot_new_version.Economy.Coins.{Event, process_coin_transaction}
use telegram_bot_new_version.Models.Time.{DateTime}
use telegram_bot_new_version.Models.Coins.{
  CoinPackage, OrderStatus, OrderType, Payload, CoinPurchaseOrder, package_buy,
}
use telegram_bot_new_version.Gifts.Inventory.{held}
use telegram_bot_new_version.Gifts.Engine.{credit_gift}
use telegram_bot_new_version.Payment.Gateway.{Reply, Verdict, verify_payment}
use telegram_bot_new_version.Prelude.{
  ◌==◌, if◌then◌else◌, ℕ, String, ◌⊎◌, inl, inr, Bool, true, false, not, Option, none, some, List,
}
use telegram_bot_new_version.Prelude.Table.{find, update}
use telegram_bot_new_version.Prelude.Int.{pos}

pub data Page : Type 0 where
  no_order bad_authority cancelled no_package bad_payload unknown_type : Page
  temporary_error not_verified no_user paid : Page
  already_processed : Bool → Page

abbrev pub order_key : CoinPurchaseOrder → ℕ
order_key o = o.id

unfoldable pub get_order : ℕ → Db → Option CoinPurchaseOrder
get_order id d = find order_key id d.orders

unfoldable pub write_order : ℕ → (CoinPurchaseOrder → CoinPurchaseOrder) → Db → Db
write_order id f d = record d { orders = update order_key id f d.orders }

unfoldable pub set_status : OrderStatus → CoinPurchaseOrder → CoinPurchaseOrder
set_status status o = record o { status = status }

unfoldable pub resolve_order : OrderStatus → ℕ → CoinPurchaseOrder → CoinPurchaseOrder
resolve_order status now o = record o { status = status; resolved_at = some now }

abbrev pub is_pending : OrderStatus → Bool
is_pending OrderStatus.pending = true
is_pending _ = false

abbrev pub is_approved : OrderStatus → Bool
is_approved OrderStatus.approved = true
is_approved _ = false

-- `Authority and Authority == order.gateway_authority`
unfoldable pub authority_matches : String → CoinPurchaseOrder → Bool
authority_matches authority o =
    if str_eq authority ""
    then false
    else elim o.gateway_authority [ none ↦ false | some held ↦ str_eq authority held ]

-- What the order buys, with what its branch of the callback needs.
pub data Purchase : Type 0 where
  coin_purchase : CoinPackage → Purchase
  vip_purchase gift_purchase : Purchase

-- A missing number and a 0 are both false.
unfoldable pub or_else : Option ℕ → ℕ → ℕ
or_else none n = n
or_else (some m) n = if m == 0 then n else m

abbrev pub package_key : CoinPackage → ℕ
package_key p = p.id

unfoldable pub get_package : Option ℕ → Db → Option CoinPackage
get_package none d = none
get_package (some id) d = find package_key id d.coin_packages

unfoldable pub payload_price : Purchase → Payload → Page ⊎ (ℕ × Purchase)
unfolding or_else
payload_price bought payload =
    let price = or_else payload.price_toman 0 in
    if price == 0 then inl bad_payload else inr (price, bought)

-- The amount to verify, or the page of an order that fails.
unfoldable pub amount_due : CoinPurchaseOrder → Db → Page ⊎ (ℕ × Purchase)
unfolding or_else payload_price get_package
amount_due o d = elim o.order_type [
  | OrderType.coins ↦ elim (get_package o.package_id d) [
    | none ↦ inl no_package
    | some p ↦ inr (or_else o.order_payload.price_toman_snapshot p.price_toman, coin_purchase p)
  ]
  | OrderType.vip_subscription ↦ payload_price vip_purchase o.order_payload
  | OrderType.gift_order ↦ payload_price gift_purchase o.order_payload
  | OrderType.other name ↦ inl unknown_type
]

-- What the callback takes from its surroundings: the running event, the commission setting, the
-- driver's reading of times, the plans and the clock.
pub record Env : Type 0 where
  pub event : Option Event
  pub pct : ℕ
  pub read_back : DateTime → DateTime
  pub plans : List VipPlan
  pub now : ℕ

-- `payload.get("quantity", 1)`
abbrev pub ordered_quantity : Option ℕ → ℕ
ordered_quantity none = 1
ordered_quantity (some n) = n

module _ (env : Env) where
  -- The three branches of a verified payment. The exceptions of a VIP activation and the error text of
  -- a gift are logged and go no further.
  unfoldable pub deliver : Purchase → CoinPurchaseOrder → Db → Db
  deliver (coin_purchase p) o d =
      let credited =
        (process_coin_transaction env.event o.user_tg_id (pos p.coin_amount)
          (package_buy p.coin_amount o.id) false none d).0 in
      (process_commission_on_purchase env.pct o.id o.user_tg_id p.coin_amount credited).0
  deliver vip_purchase o d = elim o.order_payload.plan_code [
    | none ↦ d
    | some code ↦
        (activate_subscription env.read_back env.plans env.now o.user_tg_id code (some o.id) d).0
  ]
  deliver gift_purchase o d = elim o.order_payload.gift_code [
    | none ↦ d
    | some code ↦
        (credit_gift o.user_tg_id code (ordered_quantity o.order_payload.quantity) (some o.id) d).0
  ]

  unfoldable pub settle : Purchase → CoinPurchaseOrder → Db → Db × Page
  unfolding resolve_order
  settle bought o d = elim (get_user_by_tg_id o.user_tg_id d) [
    | none ↦ (write_order o.id (resolve_order OrderStatus.failed env.now) d, no_user)
    | some u ↦
        (write_order o.id (resolve_order OrderStatus.approved env.now) (deliver bought o d), paid)
  ]

  -- `verify` is the call of `zarinpal.verify_payment`, where `none` is an exception that it raises.
  unfoldable pub check_and_settle :
      (verify : ℕ → String → Option Verdict) → String → CoinPurchaseOrder → Db → Db × Page
  unfolding set_status
  check_and_settle verify authority o d = elim (amount_due o d) [
    | inl page ↦ (write_order o.id (set_status OrderStatus.failed) d, page)
    | inr (amount, bought) ↦ elim (verify amount authority) [
      | none ↦ (d, temporary_error)
      | some verdict ↦
          if verdict.0
          then settle bought o d
          else (write_order o.id (set_status OrderStatus.rejected) d, not_verified)
    ]
  ]

  unfoldable pub callback :
      (verify : ℕ → String → Option Verdict)
      → (order_id : ℕ) (authority status : String) → Db
      → Db × Page
  unfolding set_status authority_matches
  callback verify order_id authority status d = elim (get_order order_id d) [
    | none ↦ (d, no_order)
    | some o ↦
        if not (is_pending o.status)
        then (d, already_processed (is_approved o.status))
        else if not (authority_matches authority o)
        then (write_order o.id (set_status OrderStatus.failed) d, bad_authority)
        else if not (str_eq status "OK")
        then (write_order o.id (set_status OrderStatus.rejected) d, cancelled)
        else check_and_settle verify authority o d
  ]

  -- The callback with the gateway client of the repository.
  unfoldable pub zarinpal_callback :
      (post : ℕ → String → Reply) (order_id : ℕ) (authority status : String) → Db → Db × Page
  zarinpal_callback post =
      callback (λ amount authority. some (verify_payment post amount authority))
