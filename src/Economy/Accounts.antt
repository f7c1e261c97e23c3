-- ===== src/Economy/Accounts.antt =====
-- database/queries/crud.py: `create_user`, `mark_account_deleted`, `has_deleted_account`,
-- `complete_user_registration`; bot/core/bot_shard_manager.py: `get_shard_index_for_user`.
pub mod Audit
use text.Mathlib.Text.{◌==◌ as str_eq}
use telegram_bot_new_version.Prelude.{
  leb, if◌then◌else◌, is_some, ℕ, ◌%◌, String, Bool, true, false, ◌||◌, Option, none, some, List,
  [], ◌∷◌, ◌==◌,
}
use telegram_bot_new_version.Prelude.Table.{find_by}
use telegram_bot_new_version.Prelude.Int.{pos}
use telegram_bot_new_version.Models.Users.{User}
use telegram_bot_new_version.Models.{Db}
use telegram_bot_new_version.Economy.Coins.{Event, process_coin_transaction}
use telegram_bot_new_version.Session.{get_user_by_tg_id, add_coin_transaction, write_user}
use telegram_bot_new_version.Models.Coins.{
  start_gift, generic, invite_reward, profile_info, invite_entry,
}
use telegram_bot_new_version.Gifts.Inventory.{held}

unfoldable pub get_shard_index_for_user : ℕ → ℕ → ℕ
get_shard_index_for_user shards tg_id = if leb shards 1 then 0 else tg_id % shards

-- Whether a row holds this public id.
pub has_public_id : String → User → Bool
has_public_id id u = elim u.public_id [ none ↦ false | some held ↦ str_eq held id ]

pub data Creation : Type 0 where
  created : User → Creation
  failed_after_retries : Creation

pub new_user : ℕ → String → Option String → Option ℕ → ℕ → String → ℕ → User
new_user tg_id first_name username referrer_id shards public_id now = record {
  tg_id = tg_id;
  public_id = some public_id;
  username = username;
  first_name = first_name;
  age = none;
  gender = none;
  province = none;
  city = none;
  tags = none;
  profile_photo_file_id = none;
  profile_voice_file_id = none;
  coin_balance = pos 3;
  total_earned_coins = pos 3;
  total_spent_coins = pos 0;
  xp_points = 0;
  level = 1;
  lootbox_count = 0;
  is_vip = false;
  vip_quota = 0;
  vip_expires_at = none;
  is_banned = false;
  report_count = 0;
  trust_score = 100;
  warning_count = 0;
  invisible_mode = false;
  comments_disabled = false;
  bio = none;
  interests = none;
  likes_count = pos 0;
  re_engage_blocked = false;
  is_online = false;
  last_active = now;
  shard_index = some (get_shard_index_for_user shards tg_id);
  referrer_id = referrer_id;
  referral_code = none;
  referral_earnings = pos 0;
  completed_registration = false;
  has_location = false;
  profile_completion_pct = 0;
  profile_completion_rewarded = false;
}

-- The retry loop: `ids` are the ids that `generate_random_public_id` gives, one for each attempt. An
-- id in use makes the insert fail, and the next is tried. An insert whose `tg_id` is in use fails
-- at every attempt: the error's text holds the INSERT statement, which names `public_id`, so
-- the handler takes every IntegrityError for a collision of public ids.
pub first_free : ℕ → List String → Db → Option String
first_free tg_id [] d = none
first_free tg_id (id ∷ ids) d =
    if is_some (get_user_by_tg_id tg_id d) || is_some (find_by (has_public_id id) d.users)
    then first_free tg_id ids d
    else some id

unfoldable pub create_user :
    (tg_id : ℕ) (first_name : String) (username : Option String) (referrer_id : Option ℕ)
    → (shards now : ℕ) (ids : List String) → Db
    → Db × Creation
unfolding new_user first_free has_public_id
create_user tg_id first_name username referrer_id shards now ids d = elim (first_free tg_id ids d) [
  | none ↦ (d, failed_after_retries)
  | some id ↦
      let u = new_user tg_id first_name username referrer_id shards id now in
      (
        add_coin_transaction
            (record {
              user_id = tg_id;
              amount = pos 3;
              description = start_gift;
              reference_id = none;
              tx_type = generic;
            })
            (record d { users = u ∷ d.users }),
        created u,
      )
]

unfoldable pub has_deleted_account : ℕ → Db → Bool
has_deleted_account tg_id d = is_some (find_by (λ k. k == tg_id) d.deleted_accounts)

unfoldable pub mark_account_deleted : ℕ → Db → Db
unfolding has_deleted_account
mark_account_deleted tg_id d =
    if has_deleted_account tg_id d
    then d
    else record d { deleted_accounts = tg_id ∷ d.deleted_accounts }

-- The arguments of `complete_user_registration` that go into the row.
pub record Registration : Type 0 where
  pub gender : String
  pub age : ℕ
  pub province : String
  pub city : String
  pub first_name : Option String
  pub tags : Option String
  pub profile_photo_file_id : Option String

-- `if first_name:`, where an empty text is false.
pub or_keep : Option String → String → String
or_keep none old = old
or_keep (some new) old = if str_eq new "" then old else new

pub fill_profile : Registration → User → User
fill_profile r u = record u {
  first_name = or_keep r.first_name u.first_name;
  gender = some r.gender;
  age = some r.age;
  province = some r.province;
  city = some r.city;
  tags = r.tags;
  profile_photo_file_id = r.profile_photo_file_id;
  completed_registration = true;
}

-- Both rewards of an invitation, if the inviting user still exists.
pub reward_invite : Option Event → ℕ → ℕ → Db → Db × Option ℕ
reward_invite event tg_id referrer d = elim (get_user_by_tg_id referrer d) [
  | none ↦ (d, none)
  | some r ↦
      let d' =
        (process_coin_transaction event referrer (pos 5) (invite_reward tg_id) false none d).0 in
      ((process_coin_transaction event tg_id (pos 5) invite_entry false none d').0, some r.tg_id)
]

-- The referral step: nothing without a referrer, nor for an id that has deleted an account before.
pub referral_step : Option Event → ℕ → Option ℕ → Db → Db × Option ℕ
unfolding reward_invite
referral_step event tg_id none d = (d, none)
referral_step event tg_id (some referrer) d =
    if has_deleted_account tg_id d then (d, none) else reward_invite event tg_id referrer d

-- The steps for a registered row: its columns, the reward, the referral.
pub register : Option Event → ℕ → Registration → User → Db → Db × Bool × Option ℕ
unfolding referral_step
register event tg_id r u d =
    let filled = write_user tg_id (fill_profile r) d in
    let paid = (process_coin_transaction event tg_id (pos 5) profile_info false none filled).0 in
    let (d', referrer) = referral_step event tg_id u.referrer_id paid in (d', true, referrer)

-- The result is `success` and `referrer_tg_id`.
unfoldable pub complete_user_registration :
    Option Event → ℕ → Registration → Db → Db × Bool × Option ℕ
unfolding fill_profile or_keep register
complete_user_registration event tg_id r d = elim (get_user_by_tg_id tg_id d) [
  | none ↦ (d, false, none)
  | some u ↦ if u.completed_registration then (d, false, none) else register event tg_id r u d
]
