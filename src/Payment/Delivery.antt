-- ===== src/Payment/Delivery.antt =====
-- What the payment callback delivers (api/routes/payment.py): every coin is logged, and a VIP renewal
-- can be lost.
use telegram_bot_new_version.Models.{Db}
use telegram_bot_new_version.Session.{get_user_by_tg_id}
use telegram_bot_new_version.Vip.{
  VipPlan, find_plan, still_running, new_expiry, grant_vip, start_term, activate_subscription,
}
use telegram_bot_new_version.Economy.Audit.{IsFair, process-IsAudited}
use telegram_bot_new_version.Referral.Commission.{process_commission-IsAudited}
use telegram_bot_new_version.Models.Users.{User}
use telegram_bot_new_version.Models.Gifts.{Source}
use telegram_bot_new_version.Models.Time.{DateTime, aware, naive}
use telegram_bot_new_version.Models.Coins.{OrderStatus, CoinPurchaseOrder, package_buy}
use telegram_bot_new_version.Session.Ledger.{logged, IsAudited, write_user-IsAudited}
use telegram_bot_new_version.Gifts.Inventory.{get_gift_type_by_code}
use telegram_bot_new_version.Gifts.Engine.{add_gift_transaction, gift_log, gateway_log, credit_gift}
use telegram_bot_new_version.Gifts.Coins.{users-add, coin_transactions-add}
use telegram_bot_new_version.Payment.Gateway.{Verdict}
use telegram_bot_new_version.Payment.Settled.{get_order-id}
use telegram_bot_new_version.Payment.Callback.{
  get_order, write_order, resolve_order, authority_matches, Purchase, amount_due, Env,
  ordered_quantity, deliver, settle, check_and_settle, callback, coin_purchase, paid,
}
use telegram_bot_new_version.Prelude.{
  Option-cases, Sum-cases, ℕ, String, ◌≡◌, refl, ◌≢◌, inl, inr, true, false, Option, none, some,
  List, arith,
}
use telegram_bot_new_version.Prelude.Int.{+ℤ_comm, +ℤ_zero, pos}

pub activate-IsAudited :
    (read_back : DateTime → DateTime) (plans : List VipPlan) (now k : ℕ) (code : String)
    → (order : Option ℕ) (d : Db) (j : ℕ) → IsAudited j d
    → IsAudited j (activate_subscription read_back plans now k code order d).0
unfolding activate_subscription start_term grant_vip
activate-IsAudited read_back plans now k code order d j h =
    elim (Option-cases (find_plan code plans)) [
      | inl e ↦ ground arith
      | inr (plan, e) ↦ elim (Option-cases (get_user_by_tg_id k d)) [
        | inl n ↦ ground arith
        | inr (u, n) ↦ elim (Option-cases (new_expiry now plan.duration_days u)) [
          | inl x ↦ ground arith
          | inr (t, x) ↦ ground (
            arith,
            write_user-IsAudited k (grant_vip (read_back (aware t))) d (λ v. refl) j (λ v. refl) h,
          )
        ]
      ]
    ]

credit_gift-IsAudited :
    (k : ℕ) (code : String) (n : ℕ) (order : Option ℕ) (d : Db) (j : ℕ)
    → IsAudited j d
    → IsAudited j (credit_gift k code n order d).0
unfolding credit_gift gateway_log add_gift_transaction logged gift_log
credit_gift-IsAudited k code n none d j h = elim (Option-cases (get_gift_type_by_code code d)) [
  | inl e ↦ ground arith
  | inr (g, e) ↦ ground (
    arith,
    users-add k g.id n Source.gateway_purchase d,
    coin_transactions-add k g.id n Source.gateway_purchase d,
  )
]
credit_gift-IsAudited k code n (some order) d j h =
    elim (Option-cases (get_gift_type_by_code code d)) [
      | inl e ↦ ground arith
      | inr (g, e) ↦ ground (
        arith,
        users-add k g.id n Source.gateway_purchase d,
        coin_transactions-add k g.id n Source.gateway_purchase d,
        +ℤ_zero (logged j d.coin_transactions),
        +ℤ_comm (pos 0) (logged j d.coin_transactions),
      )
    ]

module _ (env : Env) (fair : IsFair env.event) (j : ℕ) where
  deliver-IsAudited :
      (bought : Purchase) (o : CoinPurchaseOrder) (d : Db)
      → get_user_by_tg_id o.user_tg_id d ≢ none
      → IsAudited j d
      → IsAudited j (deliver env bought o d)
  unfolding deliver
  deliver-IsAudited (coin_purchase p) o d known h =
      process_commission-IsAudited env.pct o.id o.user_tg_id p.coin_amount _ j (
        process-IsAudited o.user_tg_id none d j h env.event (pos p.coin_amount)
          (package_buy p.coin_amount o.id) false known fair)
  deliver-IsAudited Purchase.vip_purchase o d known h =
      elim (Option-cases o.order_payload.plan_code) [
        | inl e ↦ ground arith
        | inr (code, e) ↦ ground (
          arith,
          activate-IsAudited env.read_back env.plans env.now o.user_tg_id code (some o.id) d j h,
        )
      ]
  deliver-IsAudited Purchase.gift_purchase o d known h =
      elim (Option-cases o.order_payload.gift_code) [
        | inl e ↦ ground arith
        | inr (code, e) ↦ ground (
          arith,
          credit_gift-IsAudited o.user_tg_id code (ordered_quantity o.order_payload.quantity)
              (some o.id) d j h,
        )
      ]

  settle-IsAudited :
      (bought : Purchase) (o : CoinPurchaseOrder) (d : Db)
      → IsAudited j d
      → IsAudited j (settle env bought o d).0
  unfolding settle write_order
  settle-IsAudited bought o d h = elim (Option-cases (get_user_by_tg_id o.user_tg_id d)) [
    | inl e ↦ ground arith
    | inr (u, e) ↦ ground (arith, deliver-IsAudited bought o d (rw e (λ n. cc)) h)
  ]

  check-IsAudited :
      (verify : ℕ → String → Option Verdict) (authority : String) (o : CoinPurchaseOrder) (d : Db)
      → IsAudited j d
      → IsAudited j (check_and_settle env verify authority o d).0
  unfolding check_and_settle write_order
  check-IsAudited verify authority o d h = elim (Sum-cases (amount_due o d)) [
    | inl (page, x) ↦ ground arith
    | inr ((amount, bought), x) ↦ ground (arith, settle-IsAudited bought o d h)
  ]

  -- Whatever a callback brings, under an event that makes no deposit negative, the coin log goes on
  -- explaining the balance of every user: the buyer's coins and the referrer's commission are logged,
  -- and nothing else moves.
  pub callback-IsAudited :
      (verify : ℕ → String → Option Verdict) (id : ℕ) (authority status : String) (d : Db)
      → IsAudited j d
      → IsAudited j (callback env verify id authority status d).0
  unfolding callback write_order
  callback-IsAudited verify id authority status d h = elim (Option-cases (get_order id d)) [
    | inl e ↦ ground arith
    | inr (o, e) ↦ ground (arith, check-IsAudited verify authority o d h)
  ]

not_renewed :
    (env : Env) (o : CoinPurchaseOrder) (d : Db) (u : User)
    → get_user_by_tg_id o.user_tg_id d ≡ some u
    → u.is_vip ≡ true
    → (t : ℕ) → u.vip_expires_at ≡ some (naive t)
    → deliver env Purchase.vip_purchase o d ≡ d
unfolding deliver activate_subscription new_expiry still_running
not_renewed env o d u k vip t stored = elim (Option-cases o.order_payload.plan_code) [
  | inl e ↦ ground arith
  | inr (code, e) ↦ ground arith
]

-- A confirmed payment for a VIP renewal, where the user's VIP status has a stored expiry without a
-- zone, is answered as paid and approves the order, and neither a user nor a subscription changes.
pub renewal_lost :
    (env : Env) (verify : ℕ → String → Option Verdict) (id : ℕ) (authority : String) (d : Db)
    → (o : CoinPurchaseOrder) → get_order id d ≡ some o
    → o.status ≡ OrderStatus.pending
    → authority_matches authority o ≡ true
    → (amount : ℕ) → amount_due o d ≡ inr (amount, Purchase.vip_purchase)
    → (verdict : Verdict) → verify amount authority ≡ some verdict
    → verdict.0 ≡ true
    → (u : User) → get_user_by_tg_id o.user_tg_id d ≡ some u
    → u.is_vip ≡ true
    → (t : ℕ) → u.vip_expires_at ≡ some (naive t)
    → let r = callback env verify id authority "OK" d in
      (r.1 ≡ paid)
      × (r.0.users ≡ d.users)
      × (r.0.vip_subscriptions ≡ d.vip_subscriptions)
      × (r.0.orders ≡ (write_order id (resolve_order OrderStatus.approved env.now) d).orders)
unfolding callback check_and_settle settle write_order
renewal_lost env verify id authority d o e p m amount a verdict v ok u k vip t stored =
    let own : o.id ≡ id = get_order-id id d o e in
    let same : deliver env Purchase.vip_purchase o d ≡ d = not_renewed env o d u k vip t stored in
    ground (arith, same)
