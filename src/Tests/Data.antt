-- ===== src/Tests/Data.antt =====
-- A small database for the tests.
use telegram_bot_new_version.Models.{Db}
use telegram_bot_new_version.Session.{get_user_by_tg_id}
use telegram_bot_new_version.Vip.{default_plans}
use telegram_bot_new_version.Models.Users.{User}
use telegram_bot_new_version.Models.Gifts.{GiftType, Source}
use telegram_bot_new_version.Models.Time.{without_zone, aware, naive}
use telegram_bot_new_version.Models.Social.{ReportStatus, UserReport, ProfileComment}
use telegram_bot_new_version.Models.Coins.{
  CoinTransaction, CoinPackage, OrderStatus, OrderType, CoinPurchaseOrder, gateway, start_gift,
  generic,
}
use telegram_bot_new_version.Session.Ledger.{logged, IsAudited, IsCounted}
use telegram_bot_new_version.Gifts.Inventory.{get_gift_type_by_code}
use telegram_bot_new_version.Payment.Gateway.{Reply, answered, network_error}
use telegram_bot_new_version.Payment.Callback.{Env}
use telegram_bot_new_version.Prelude.Table.{find, find_by}
use telegram_bot_new_version.Prelude.Int.{int_laws, pos}
use telegram_bot_new_version.Prelude.{ℕ, String, ◌≡◌, refl, true, false, none, some, [], ◌∷◌}

-- 100 coins, a complete profile, a referral code.
abbrev pub alice : User
alice = record {
  tg_id = 1;
  public_id = some "u1";
  username = none;
  first_name = "A";
  age = none;
  gender = none;
  province = none;
  city = some "Yazd";
  tags = some "t";
  profile_photo_file_id = some "p";
  profile_voice_file_id = none;
  coin_balance = pos 100;
  total_earned_coins = pos 120;
  total_spent_coins = pos 20;
  xp_points = 50;
  level = 1;
  lootbox_count = 0;
  is_vip = false;
  vip_quota = 2;
  vip_expires_at = none;
  is_banned = false;
  report_count = 0;
  trust_score = 100;
  warning_count = 0;
  invisible_mode = false;
  comments_disabled = false;
  bio = some "b";
  interests = none;
  likes_count = pos 1;
  re_engage_blocked = false;
  is_online = false;
  last_active = 0;
  shard_index = none;
  referrer_id = none;
  referral_code = some "ABCD2345";
  referral_earnings = pos 0;
  completed_registration = false;
  has_location = true;
  profile_completion_pct = 0;
  profile_completion_rewarded = false;
}

-- 10 coins, referred by `alice`, four reports.
abbrev pub bob : User
bob = record alice {
  tg_id = 2;
  public_id = some "u2";
  coin_balance = pos 10;
  total_earned_coins = pos 10;
  total_spent_coins = pos 0;
  report_count = 4;
  referrer_id = some 1;
  referral_code = none;
  likes_count = pos 0;
  bio = none;
  vip_quota = 0;
  has_location = false;
}

-- A VIP whose stored expiry has no zone.
abbrev pub carol : User
carol = record bob {
  tg_id = 3;
  public_id = some "u3";
  coin_balance = pos 0;
  total_earned_coins = pos 0;
  is_vip = true;
  vip_expires_at = some (naive 5000);
  report_count = 0;
  referrer_id = none;
}

-- A VIP whose stored expiry has a zone.
abbrev pub dora : User
dora = record carol { tg_id = 4; public_id = some "u4"; vip_expires_at = some (aware 5000) }

abbrev pub entry : ℕ → ℕ → CoinTransaction
entry k n = record {
  user_id = k;
  amount = pos n;
  description = start_gift;
  reference_id = none;
  tx_type = generic;
}

abbrev pub rose : GiftType
rose = record {
  id = 1;
  code = "ROSE";
  display_name = "Rose";
  emoji = "r";
  price_coins = 10;
  description = none;
  is_active = true;
  sort_order = 1;
}

abbrev pub hundred_coins : CoinPackage
hundred_coins = record { id = 1; coin_amount = 100; price_toman = 50000; is_active = true }

-- 36 characters.
abbrev pub authority_a : String
authority_a = "A00000000000000000000000000000000001"

abbrev pub coin_order : CoinPurchaseOrder
coin_order = record {
  id = 40;
  user_tg_id = 2;
  package_id = some 1;
  payment_method = gateway;
  order_type = OrderType.coins;
  order_payload = record {
    price_toman_snapshot = none;
    price_toman = none;
    plan_code = none;
    gift_code = none;
    quantity = none;
  };
  status = OrderStatus.pending;
  receipt_photo_file_id = none;
  gateway_authority = some authority_a;
  created_at = 0;
  resolved_at = none;
}

abbrev pub vip_order : CoinPurchaseOrder
vip_order = record coin_order {
  id = 41;
  user_tg_id = 3;
  package_id = none;
  order_type = OrderType.vip_subscription;
  order_payload = record {
    price_toman_snapshot = none;
    price_toman = some 95000;
    plan_code = some "1m";
    gift_code = none;
    quantity = none;
  };
}

abbrev pub report_of_bob : UserReport
report_of_bob = record {
  id = 5;
  reporter_id = 1;
  reported_id = 2;
  reason = "spam";
  match_history_id = some 7;
  status = ReportStatus.pending;
  admin_note = none;
  resolved_at = none;
}

abbrev pub old_comment : ProfileComment
old_comment = record {
  id = 60;
  author_tg_id = 2;
  target_tg_id = 1;
  text = "hi";
  created_at = 1;
  updated_at = 1;
}

abbrev pub db : Db
db = record {
  users = alice ∷ bob ∷ carol ∷ dora ∷ [];
  deleted_accounts = 2 ∷ [];
  coin_transactions = entry 1 100 ∷ entry 2 10 ∷ [];
  coin_packages = hundred_coins ∷ [];
  orders = coin_order ∷ vip_order ∷ [];
  commissions = [];
  gift_types = rose ∷ [];
  user_gifts =
      record { owner_tg_id = 1; gift_type_id = 1; quantity = 3; last_source = Source.purchase }
      ∷ [];
  gift_transactions = [];
  matches =
      record { id = 7; user_one_id = 1; user_two_id = 2; is_active = true; ended_at = none } ∷ [];
  likes = record { liker_id = 2; liked_id = 1; is_pass = false } ∷ [];
  reports = report_of_bob ∷ [];
  warnings = [];
  friends = record { user_id = 1; friend_id = 2 } ∷ [];
  blocks = [];
  comments = old_comment ∷ [];
  completion_logs = [];
  vip_subscriptions =
      record {
        id = 80;
        user_tg_id = 3;
        plan_code = "1w";
        started_at = 0;
        expires_at = 5000;
        payment_order_id = none;
        is_active = true;
      }
      ∷ [];
  next_id = 100;
}

-- A gateway that confirms every payment, and one that cannot be reached.
abbrev pub confirms : ℕ → String → Reply
confirms amount authority = answered (some 100) (some "77")

abbrev pub unreachable : ℕ → String → Reply
unreachable amount authority = network_error

abbrev pub env : Env
env = record { event = none; pct = 20; read_back = without_zone; plans = default_plans; now = 1000 }

pub db-alice : get_user_by_tg_id 1 db ≡ some alice
unfolding find
db-alice = refl

pub db-bob : get_user_by_tg_id 2 db ≡ some bob
unfolding find
db-bob = refl

pub db-carol : get_user_by_tg_id 3 db ≡ some carol
unfolding find
db-carol = refl

pub db-dora : get_user_by_tg_id 4 db ≡ some dora
unfolding find
db-dora = refl

pub db-rose : get_gift_type_by_code "ROSE" db ≡ some rose
unfolding get_gift_type_by_code telegram_bot_new_version.Prelude.Table.find_by
db-rose = refl

pub db-IsAudited : IsAudited 1 db
unfolding logged find telegram_bot_new_version.Prelude.Int.◌+ℤ◌
db-IsAudited = (refl, omega int_laws)

pub db-IsCounted : IsCounted 1 db
unfolding find telegram_bot_new_version.Prelude.Int.◌+ℤ◌
db-IsCounted = refl
