-- ===== src/Handlers/Receipts/Audited.antt =====
-- The coin log across the decisions on receipts (bot/handlers/payments.py).
use telegram_bot_new_version.Models.{Db}
use telegram_bot_new_version.Session.{get_user_by_tg_id}
use telegram_bot_new_version.Economy.Audit.{IsFair, process-IsAudited}
use telegram_bot_new_version.Referral.Commission.{process_commission-IsAudited}
use telegram_bot_new_version.Models.Coins.{CoinPackage, CoinPurchaseOrder}
use telegram_bot_new_version.Session.Ledger.{IsAudited}
use telegram_bot_new_version.Payment.Delivery.{activate-IsAudited}
use telegram_bot_new_version.Payment.Callback.{get_order, write_order, get_package, Env}
use telegram_bot_new_version.Handlers.Receipts.{
  verify_vip, credit_package, verify_coins, verify_loaded, admin_verify_receipt,
  admin_reject_receipt, pos, package_card,
}
use telegram_bot_new_version.Prelude.{Option-cases, ℕ, ◌≢◌, inl, inr, false, none, some, arith}

module _ (env : Env) (j : ℕ) where
  vip-IsAudited :
      (o : CoinPurchaseOrder) (d : Db) → IsAudited j d → IsAudited j (verify_vip env o d).0
  unfolding verify_vip write_order
  vip-IsAudited o d h = elim (Option-cases o.order_payload.plan_code) [
    | inl e ↦ ground arith
    | inr (code, e) ↦ ground (
      arith,
      activate-IsAudited env.read_back env.plans env.now o.user_tg_id code (some o.id) d j h,
    )
  ]

  package-IsAudited :
      (p : CoinPackage) (o : CoinPurchaseOrder) (d : Db)
      → IsFair env.event
      → get_user_by_tg_id o.user_tg_id d ≢ none
      → IsAudited j d
      → IsAudited j (credit_package env p o d)
  unfolding credit_package
  package-IsAudited p o d fair known h =
      process_commission-IsAudited env.pct o.id o.user_tg_id p.coin_amount _ j (
        process-IsAudited o.user_tg_id none d j h env.event (pos p.coin_amount)
          (package_card p.coin_amount) false known fair)

  coins-IsAudited :
      (o : CoinPurchaseOrder) (d : Db)
      → IsFair env.event
      → IsAudited j d
      → IsAudited j (verify_coins env o d).0
  unfolding verify_coins write_order
  coins-IsAudited o d fair h = elim (Option-cases (get_package o.package_id d)) [
    | inl e ↦ ground arith
    | inr (p, e) ↦ elim (Option-cases (get_user_by_tg_id o.user_tg_id d)) [
      | inl n ↦ ground arith
      | inr (u, n) ↦ ground (arith, package-IsAudited p o d fair (rw n (λ x. cc)) h)
    ]
  ]

pub admin_verify-IsAudited :
    (env : Env) (id : ℕ) (d : Db) (j : ℕ)
    → IsFair env.event
    → IsAudited j d
    → IsAudited j (admin_verify_receipt env id d).0
unfolding admin_verify_receipt verify_loaded
admin_verify-IsAudited env id d j fair h = elim (Option-cases (get_order id d)) [
  | inl e ↦ ground arith
  | inr (o, e) ↦ ground (arith, vip-IsAudited env j o d h, coins-IsAudited env j o d fair h)
]

pub admin_reject-IsAudited :
    (env : Env) (id : ℕ) (d : Db) (j : ℕ)
    → IsAudited j d
    → IsAudited j (admin_reject_receipt env id d).0
unfolding admin_reject_receipt write_order
admin_reject-IsAudited env id d j h = ground arith
