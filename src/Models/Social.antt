-- ===== src/Models/Social.antt =====
-- database/models/models.py: MatchHistory, UserLike, UserReport, UserWarning, FriendList, BlockList,
-- ProfileComment, ProfileCompletionLog, VIPSubscription.
use telegram_bot_new_version.Prelude.{ℕ, Bool, Option, String}

pub record MatchHistory : Type 0 where
  pub id : ℕ
  pub user_one_id : ℕ
  pub user_two_id : ℕ
  pub is_active : Bool
  pub ended_at : Option ℕ

pub record UserLike : Type 0 where
  pub liker_id : ℕ
  pub liked_id : ℕ
  pub is_pass : Bool

pub data ReportStatus : Type 0 where
  pending approved rejected : ReportStatus

pub record UserReport : Type 0 where
  pub id : ℕ
  pub reporter_id : ℕ
  pub reported_id : ℕ
  pub reason : String
  pub match_history_id : Option ℕ
  pub status : ReportStatus
  pub admin_note : Option String
  pub resolved_at : Option ℕ

pub data Issuer : Type 0 where
  admin_action false_report : Issuer

-- The two texts that `reason` takes: the approved report's own reason, or that the report was false.
pub data WarningReason : Type 0 where
  report_approved : String → WarningReason
  report_false : WarningReason

pub record UserWarning : Type 0 where
  pub user_tg_id : ℕ
  pub reason : WarningReason
  pub issued_by : Issuer
  pub report_id : Option ℕ
  pub issued_by_admin_tg_id : Option ℕ

pub record FriendList : Type 0 where
  pub user_id : ℕ
  pub friend_id : ℕ

pub record BlockList : Type 0 where
  pub blocker_id : ℕ
  pub blocked_id : ℕ

pub record ProfileComment : Type 0 where
  pub id : ℕ
  pub author_tg_id : ℕ
  pub target_tg_id : ℕ
  pub text : String
  pub created_at : ℕ
  pub updated_at : ℕ

-- `step_code`
pub data Step : Type 0 where
  city photo gps tags bio voice : Step

pub record ProfileCompletionLog : Type 0 where
  pub user_tg_id : ℕ
  pub step_code : Step
  pub completed_at : ℕ

pub record VipSubscription : Type 0 where
  pub id : ℕ
  pub user_tg_id : ℕ
  pub plan_code : String
  pub started_at : ℕ
  pub expires_at : ℕ
  pub payment_order_id : Option ℕ
  pub is_active : Bool
