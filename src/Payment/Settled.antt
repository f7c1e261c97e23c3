-- ===== src/Payment/Settled.antt =====
-- The orders of the payment callback (api/routes/payment.py): each is settled once, and only by a
-- payment that the gateway confirms.
use text.Mathlib.Text.{◌==◌ as str_eq}
use telegram_bot_new_version.Models.{Db}
use telegram_bot_new_version.Models.Coins.{OrderStatus, CoinPurchaseOrder}
use telegram_bot_new_version.Payment.Gateway.{
  Reply, Verdict, is_success, read_reply, verify_payment, answered, network_error,
}
use telegram_bot_new_version.Payment.Callback.{
  order_key, get_order, write_order, set_status, is_pending, authority_matches, Purchase,
  payload_price, amount_due, Env, check_and_settle, callback, zarinpal_callback, paid, not_verified,
  already_processed,
}
use telegram_bot_new_version.Prelude.{
  Option-cases, Sum-cases, ℕ, ◌*◌, String, ◌≡◌, refl, ◌∙◌, ◌≢◌, ◌⊎◌, inl, inr, true, false, Option,
  none, some, arith,
}
use telegram_bot_new_version.Prelude.Table.{map_option, find-update, find-key}

pub get_order-write :
    (id : ℕ) (f : CoinPurchaseOrder → CoinPurchaseOrder) (d : Db)
    → ((o : CoinPurchaseOrder) → (f o).id ≡ o.id)
    → get_order id (write_order id f d) ≡ map_option f (get_order id d)
unfolding get_order write_order
get_order-write id f d same = find-update order_key id id f d.orders same ∙ ground arith

pub get_order-id : (id : ℕ) (d : Db) (o : CoinPurchaseOrder) → get_order id d ≡ some o → o.id ≡ id
unfolding get_order
get_order-id id d o = find-key order_key id d.orders o

read_reply-true :
    (r : Reply)
    → (read_reply r).0 ≡ true
    → (code : ℕ) × (ref_id : Option String) × (r ≡ answered (some code) ref_id)
      × ((code ≡ 100) ⊎ (code ≡ 101))
unfolding read_reply is_success
read_reply-true Reply.network_error e = absurd cc
read_reply-true Reply.not_a_dict e = absurd cc
read_reply-true (answered none ref_id) e = absurd cc
read_reply-true (answered (some code) ref_id) e = (code, ref_id, refl, ground (arith, e))

amount_due-paid : (o : CoinPurchaseOrder) (d : Db) → amount_due o d ≢ inl paid
unfolding amount_due payload_price
amount_due-paid o d = ground arith

check-paid :
    (env : Env) (verify : ℕ → String → Option Verdict) (authority : String) (o : CoinPurchaseOrder)
    (d : Db)
    → (check_and_settle env verify authority o d).1 ≡ paid
    → (amount : ℕ) × (bought : Purchase) × (verdict : Verdict) × (amount_due o d
        ≡ inr (amount, bought))
      × (verify amount authority ≡ some verdict)
      × (verdict.0 ≡ true)
unfolding check_and_settle
check-paid env verify authority o d e = elim (Sum-cases (amount_due o d)) [
  | inl (page, x) ↦ absurd (amount_due-paid o d (ground (arith, x, e)))
  | inr ((amount, bought), x) ↦ elim (Option-cases (verify amount authority)) [
    | inl n ↦ absurd (ground (arith, e))
    | inr (verdict, v) ↦ (amount, bought, verdict, x, v, ground (arith, e))
  ]
]

verify-true :
    (post : ℕ → String → Reply) (amount : ℕ) (authority : String)
    → (verify_payment post amount authority).0 ≡ true
    → (read_reply (post (amount * 10) authority)).0 ≡ true
unfolding verify_payment
verify-true post amount authority e = ground (arith, e)

-- An order is answered with the page of a paid order only if it was pending, the call carried the
-- order's own authority and the status OK, and the gateway confirmed, for this authority and ten
-- times the amount due, with code 100 or 101.
pub paid_only :
    (env : Env) (post : ℕ → String → Reply) (id : ℕ) (authority status : String) (d : Db)
    → (zarinpal_callback env post id authority status d).1 ≡ paid
    → (o : CoinPurchaseOrder) × (amount : ℕ) × (bought : Purchase) × (code : ℕ) × (ref_id : Option
        String)
      × (get_order id d ≡ some o)
      × (is_pending o.status ≡ true)
      × (authority_matches authority o ≡ true)
      × (str_eq status "OK" ≡ true)
      × (amount_due o d ≡ inr (amount, bought))
      × (post (amount * 10) authority ≡ answered (some code) ref_id)
      × ((code ≡ 100) ⊎ (code ≡ 101))
unfolding zarinpal_callback callback
paid_only env post id authority status d e = elim (Option-cases (get_order id d)) [
  | inl n ↦ absurd (ground (arith, e))
  | inr (o, n) ↦
      let checked : (is_pending o.status ≡ true)
          × (authority_matches authority o ≡ true)
          × (str_eq status "OK" ≡ true)
          × ((check_and_settle env (λ amount a. some (verify_payment post amount a)) authority o
                d).1
              ≡ paid) =
        ground (arith, e) in
      let (pend, auth, okay, rest) = checked in
      let (amount, bought, verdict, due, said, ok) =
        check-paid env (λ amount a. some (verify_payment post amount a)) authority o d rest in
      let (code, ref_id, reply, known) =
        read_reply-true (post (amount * 10) authority)
          (verify-true post amount authority (ground (arith, said, ok))) in
      (o, amount, bought, code, ref_id, n, pend, auth, okay, due, reply, known)
]

-- A network error while a payment is verified rejects the pending order, whose callback carried the
-- right authority and the status OK and whose amount is known: no later callback can deliver it.
pub network_error_rejects :
    (env : Env) (post : ℕ → String → Reply) (id : ℕ) (authority : String) (d : Db)
    → (o : CoinPurchaseOrder) → get_order id d ≡ some o
    → o.status ≡ OrderStatus.pending
    → authority_matches authority o ≡ true
    → (amount : ℕ) (bought : Purchase) → amount_due o d ≡ inr (amount, bought)
    → post (amount * 10) authority ≡ network_error
    → let r = zarinpal_callback env post id authority "OK" d in
      (r.1 ≡ not_verified)
      × (get_order id r.0 ≡ some (set_status OrderStatus.rejected o))
      × ((env' : Env) (post' : ℕ → String → Reply) (authority' status' : String)
          → zarinpal_callback env' post' id authority' status' r.0 ≡ (r.0, already_processed false))
unfolding zarinpal_callback callback check_and_settle verify_payment read_reply set_status
network_error_rejects env post id authority d o e p m amount bought a n =
    let own : o.id ≡ id = get_order-id id d o e in
    let w : get_order id (write_order id (set_status OrderStatus.rejected) d)
        ≡ some (set_status OrderStatus.rejected o) =
      get_order-write id (set_status OrderStatus.rejected) d (λ r. refl) ∙ ground (arith, e) in
    (ground arith, ground (arith, w), λ env' post' authority' status'. ground (arith, w))
