-- ===== src/Tests/Services.antt =====
-- Gifts, matches, warnings, referrals, VIP subscriptions and profile completion (services/).
use telegram_bot_new_version.Session.{get_user_by_tg_id}
use telegram_bot_new_version.Referral.{
  has_referral_code, ensure_referral_code, strip_ref, set_referrer, attribute_referral,
}
use telegram_bot_new_version.Vip.{VipPlan, default_plans, day, activate_subscription}
use telegram_bot_new_version.Warnings.{
  approve_report, reject_report, create_user_report, already, get_report,
}
use telegram_bot_new_version.Matches.{get_active_match}
use telegram_bot_new_version.Vip.Terms.{ends_at, term_start, activated_term}
use telegram_bot_new_version.Tests.Data.{
  alice, bob, dora, rose, report_of_bob, db, db-alice, db-bob, db-dora, db-rose,
}
use telegram_bot_new_version.Models.Users.{User}
use telegram_bot_new_version.Models.Time.{with_utc}
use telegram_bot_new_version.Models.Social.{ReportStatus}
use telegram_bot_new_version.Gifts.Inventory.{held, get_gift_type_by_code}
use telegram_bot_new_version.Gifts.Resale.{purchase_then_sell}
use telegram_bot_new_version.Gifts.Exact.{transfer_gift_exact}
use telegram_bot_new_version.Gifts.Engine.{sell_gift, purchase_gift, transfer_gift}
use telegram_bot_new_version.Prelude.{
  leb, ◌==◌, if◌then◌else◌, is_some, length, suc, ◌+◌, ◌*◌, ◌/◌, ◌≤◌, ◌<◌, String, ◌≡◌, refl, ◌≢◌,
  ◌↔◌, ◌⊎◌, inl, inr, true, false, ◌||◌, none, some, List, [], ◌∷◌, arith,
}
use telegram_bot_new_version.Prelude.Table.{find_by, find}
use telegram_bot_new_version.Prelude.Int.{◌+ℤ◌, ◌-ℤ◌, ◌≤ℤ◌, pos}
use telegram_bot_new_version.Warnings.Reports.{resolved_once, fifth_report}

abbrev monthly : VipPlan
monthly = record { code = "1m"; duration_days = 30 }

transfer_gift_exact_example :
    let d' = (transfer_gift 1 2 "ROSE" 2 db).0 in
    (held 1 rose.id db ≡ held 1 rose.id d' + 2)
    × (held 2 rose.id d' ≡ held 2 rose.id db + 2)
    × (held 3 1 d' ≡ held 3 1 db)
unfolding transfer_gift telegram_bot_new_version.Gifts.Inventory.get_gift_type_by_code find_by
transfer_gift_exact_example =
    transfer_gift_exact 1 2 "ROSE" 2 db rose 3 1 db-rose (inl (omega arith, omega arith)) refl

purchase_then_sell_example :
    let (d', failure) = sell_gift 1 "ROSE" 2 (purchase_gift 1 "ROSE" 2 db).0 in
    (failure ≡ none)
    × (held 1 rose.id d' ≡ held 1 rose.id db)
    × (v : User) × (get_user_by_tg_id 1 d' ≡ some v)
    × (v.coin_balance
        ≡ alice.coin_balance -ℤ pos (rose.price_coins * 2) +ℤ pos (rose.price_coins * 80 / 100 * 2))
    × (v.coin_balance ≤ℤ alice.coin_balance)
unfolding purchase_gift telegram_bot_new_version.Prelude.Table.find
    telegram_bot_new_version.Gifts.Inventory.get_gift_type_by_code find_by
purchase_then_sell_example = purchase_then_sell 1 "ROSE" 2 db alice rose db-alice db-rose refl

resolved_once_example :
    let a = (approve_report 3 5 9 5 90 db).0 in
    let b = (reject_report 3 9 5 90 db).0 in
    (approve_report 3 5 10 5 91 a ≡ (a, already ReportStatus.approved, []))
    × (reject_report 3 10 5 91 a ≡ (a, already ReportStatus.approved, []))
    × (approve_report 3 5 10 5 91 b ≡ (b, already ReportStatus.rejected, []))
    × (reject_report 3 10 5 91 b ≡ (b, already ReportStatus.rejected, []))
unfolding telegram_bot_new_version.Warnings.get_report telegram_bot_new_version.Prelude.Table.find
resolved_once_example = resolved_once 3 5 9 5 90 db report_of_bob 10 91 refl refl

fifth_report_example :
    let d' = (create_user_report false 9 1 2 "spam" none db).0 in
    (get_user_by_tg_id 2 d' ≡ some (record bob { report_count = 5; is_banned = true }))
    × (get_active_match 2 d' ≡ (if false then none else get_active_match 2 db))
fifth_report_example = fifth_report false 9 1 2 7 "spam" none db bob db-bob refl (inr refl, tt)

activated_term_example :
    (v : User) × (get_user_by_tg_id 4
        (activate_subscription with_utc default_plans 1000 4 "1m" (some 41) db).0
      ≡ some v)
    × (v.is_vip ≡ true)
    × (v.vip_quota ≡ 5)
    × (ends_at v ≡ term_start 1000 dora + monthly.duration_days * day)
unfolding find_by
activated_term_example =
    activated_term with_utc default_plans 1000 4 "1m" (some 41) db monthly dora refl db-dora
      (λ t e. cc) (λ t. refl)
