-- ===== src/Models/Users.antt =====
-- database/models/models.py: class User and class DeletedAccount. The columns that no modelled
-- operation reads or writes are left out (location_point, silent_until, re-engagement and
-- reminder stamps, marital_status, the preference columns, created_at and updated_at).
use telegram_bot_new_version.Prelude.{ℕ, Bool, Option, String}
use telegram_bot_new_version.Prelude.Int.{ℤ}
use telegram_bot_new_version.Models.Time.{DateTime}

-- `xp_points`, `level`, `lootbox_count`, `vip_quota` and the counters of reports and warnings start
-- at their column default and are only lowered under a guard, so they are naturals; the columns of
-- coins and `likes_count` are signed, as a bare decrement or a signed amount reaches them.
pub record User : Type 0 where
  pub tg_id : ℕ
  pub public_id : Option String
  pub username : Option String
  pub first_name : String
  pub age : Option ℕ
  pub gender : Option String
  pub province : Option String
  pub city : Option String
  pub tags : Option String
  pub profile_photo_file_id : Option String
  pub profile_voice_file_id : Option String
  pub coin_balance : ℤ
  pub total_earned_coins : ℤ
  pub total_spent_coins : ℤ
  pub xp_points : ℕ
  pub level : ℕ
  pub lootbox_count : ℕ
  pub is_vip : Bool
  pub vip_quota : ℕ
  pub vip_expires_at : Option DateTime
  pub is_banned : Bool
  pub report_count : ℕ
  pub trust_score : ℕ
  pub warning_count : ℕ
  pub invisible_mode : Bool
  pub comments_disabled : Bool
  pub bio : Option String
  pub interests : Option String
  pub likes_count : ℤ
  pub re_engage_blocked : Bool
  pub is_online : Bool
  pub last_active : ℕ
  pub shard_index : Option ℕ
  pub referrer_id : Option ℕ
  pub referral_code : Option String
  pub referral_earnings : ℤ
  pub completed_registration : Bool
  pub has_location : Bool
  pub profile_completion_pct : ℕ
  pub profile_completion_rewarded : Bool
