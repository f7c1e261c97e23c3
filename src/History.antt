-- ===== src/History.antt =====
-- Sequences of the operations of the modelled parts, in any order and with any arguments, and what
-- stays true along all of them.
pub mod Audit
use telegram_bot_new_version.Completion.{try_award_completion_reward}
use telegram_bot_new_version.Models.{Db}
use telegram_bot_new_version.Session.{get_user_by_tg_id}
use telegram_bot_new_version.Warnings.{approve_report, reject_report, create_user_report}
use telegram_bot_new_version.Quota.{consume_vip_quota_or_coin}
use telegram_bot_new_version.Matches.{terminate_active_match}
use telegram_bot_new_version.Economy.Transfer.{transfer_coins}
use telegram_bot_new_version.Economy.Audit.{IsFair}
use telegram_bot_new_version.Economy.Coins.{Event, process_coin_transaction}
use telegram_bot_new_version.Economy.Accounts.{
  create_user, Registration, complete_user_registration,
}
use telegram_bot_new_version.Models.Coins.{Description}
use telegram_bot_new_version.Level.Bounds.{cost}
use telegram_bot_new_version.Gifts.Engine.{sell_gift, purchase_gift, transfer_gift}
use telegram_bot_new_version.Payment.Gateway.{Verdict}
use telegram_bot_new_version.Payment.Callback.{Env, callback}
use telegram_bot_new_version.Prelude.Int.{ℤ}
use telegram_bot_new_version.Social.Likes.{save_like}
use telegram_bot_new_version.Prelude.{ℕ, String, ◌≢◌, Bool, Option, none, List}
use telegram_bot_new_version.Handlers.Receipts.{admin_verify_receipt, admin_reject_receipt}
use telegram_bot_new_version.Handlers.Gacha.{Reward, open_lootbox}

-- One operation takes the first state to the second. The running event is one that makes no deposit
-- negative; a coin transaction is for a user that exists, as its callers have loaded the row.
pub data Operation : Db → Db → Type 0 where
  transacted :
      (event : Option Event) (k : ℕ) (amount : ℤ) (text : Description) (ignore : Bool)
      (reference : Option ℕ) (d : Db)
      → get_user_by_tg_id k d ≢ none
      → IsFair event
      → Operation d (process_coin_transaction event k amount text ignore reference d).0
  transferred :
      (from_id to_id : ℕ) (amount : ℤ) (d : Db)
      → Operation d (transfer_coins from_id to_id amount d).0
  created :
      (k : ℕ) (first_name : String) (username : Option String) (referrer : Option ℕ)
      (shards now : ℕ) (ids : List String) (d : Db)
      → Operation d (create_user k first_name username referrer shards now ids d).0
  registered :
      (event : Option Event) (k : ℕ) (r : Registration) (d : Db)
      → IsFair event
      → Operation d (complete_user_registration event k r d).0
  consumed :
      (now k cost : ℕ) (text : String) (reference : Option ℕ) (d : Db)
      → Operation d (consume_vip_quota_or_coin now k cost text reference d).0
  gift_bought : (k : ℕ) (code : String) (n : ℕ) (d : Db) → Operation d (purchase_gift k code n d).0
  gift_sold : (k : ℕ) (code : String) (n : ℕ) (d : Db) → Operation d (sell_gift k code n d).0
  gift_moved :
      (a b : ℕ) (code : String) (n : ℕ) (d : Db) → Operation d (transfer_gift a b code n d).0
  reported :
      (delivered : Bool) (now a b : ℕ) (reason : String) (history : Option ℕ) (d : Db)
      → Operation d (create_user_report delivered now a b reason history d).0
  report_approved_by :
      (max_warnings reward now report admin : ℕ) (d : Db)
      → Operation d (approve_report max_warnings reward now report admin d).0
  report_rejected_by :
      (max_warnings now report admin : ℕ) (d : Db)
      → Operation d (reject_report max_warnings now report admin d).0
  completed : (reward k : ℕ) (d : Db) → Operation d (try_award_completion_reward reward k d).0
  called_back :
      (env : Env) (verify : ℕ → String → Option Verdict) (id : ℕ) (authority status : String)
      (d : Db)
      → IsFair env.event
      → Operation d (callback env verify id authority status d).0
  liked : (a b : ℕ) (is_pass : Bool) (d : Db) → Operation d (save_like a b is_pass d)
  lootbox_opened :
      (is_cooling : Bool) (event : Option Event) (rewards : List Reward) (rand_val k : ℕ) (d : Db)
      → IsFair event
      → Operation d (open_lootbox is_cooling event rewards rand_val k d).0
  receipt_verified :
      (env : Env) (id : ℕ) (d : Db)
      → IsFair env.event
      → Operation d (admin_verify_receipt env id d).0
  receipt_rejected : (env : Env) (id : ℕ) (d : Db) → Operation d (admin_reject_receipt env id d).0
  matched_ended : (now k : ℕ) (d : Db) → Operation d (terminate_active_match now k d).0

-- Any number of operations, the latest last.
pub data History : Db → Db → Type 0 where
  start : (d : Db) → History d d
  next : (d e f : Db) → History d e → Operation e f → History d f
