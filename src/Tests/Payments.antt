-- ===== src/Tests/Payments.antt =====
-- The payment callback (api/routes/payment.py).
use text.Mathlib.Text.{◌==◌ as str_eq}
use telegram_bot_new_version.Tests.Data.{
  hundred_coins, authority_a, coin_order, db, confirms, unreachable, env,
}
use telegram_bot_new_version.Models.Coins.{OrderStatus, CoinPurchaseOrder}
use telegram_bot_new_version.Payment.Gateway.{Reply, Verdict, verify_payment, answered}
use telegram_bot_new_version.Payment.Settled.{paid_only, network_error_rejects}
use telegram_bot_new_version.Payment.Callback.{
  get_order, write_order, set_status, resolve_order, is_pending, authority_matches, Purchase,
  amount_due, Env, callback, zarinpal_callback, not_verified, paid, already_processed,
  coin_purchase, settle, check_and_settle,
}
use telegram_bot_new_version.Prelude.{
  ℕ, ◌*◌, String, ◌≡◌, refl, ◌⊎◌, inr, true, false, Option, some,
}
use telegram_bot_new_version.Prelude.Table.{find}

abbrev verified : ℕ → String → Option Verdict
verified amount authority = some (verify_payment confirms amount authority)

found-coin_order : get_order 40 db ≡ some coin_order
unfolding get_order find
found-coin_order = refl

paid_only_example :
    (o : CoinPurchaseOrder) × (amount : ℕ) × (bought : Purchase) × (code : ℕ) × (ref_id : Option
      String)
    × (get_order 40 db ≡ some o)
    × (is_pending o.status ≡ true)
    × (authority_matches authority_a o ≡ true)
    × (str_eq "OK" "OK" ≡ true)
    × (amount_due o db ≡ inr (amount, bought))
    × (confirms (amount * 10) authority_a ≡ answered (some code) ref_id)
    × ((code ≡ 100) ⊎ (code ≡ 101))
unfolding zarinpal_callback callback get_order find
    telegram_bot_new_version.Payment.Callback.check_and_settle amount_due verify_payment
    telegram_bot_new_version.Payment.Callback.settle
paid_only_example = paid_only env confirms 40 authority_a "OK" db refl

network_error_rejects_example :
    let r = zarinpal_callback env unreachable 40 authority_a "OK" db in
    (r.1 ≡ not_verified)
    × (get_order 40 r.0 ≡ some (set_status OrderStatus.rejected coin_order))
    × ((env' : Env) (post' : ℕ → String → Reply) (authority' status' : String)
        → zarinpal_callback env' post' 40 authority' status' r.0 ≡ (r.0, already_processed false))
unfolding authority_matches amount_due find
network_error_rejects_example =
    network_error_rejects env unreachable 40 authority_a db coin_order found-coin_order refl refl
      50000 (coin_purchase hundred_coins) refl refl
