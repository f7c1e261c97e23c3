-- ===== src/Warnings.antt =====
-- services/warning_engine.py: `class WarningEngine`, and `create_user_report` of
-- database/queries/crud.py. `max_warnings` and `reward` are the settings MAX_WARNINGS_BEFORE_BAN and
-- REPORT_REWARD_COINS of bot/core/config.py (3 and 5 by default).
pub mod Strikes
pub mod Reports
pub mod Filing
use telegram_bot_new_version.Models.{Db}
use telegram_bot_new_version.Session.{get_user_by_tg_id, write_user, add_coin_transaction}
use telegram_bot_new_version.Matches.{Effect, terminate_active_match, mark_banned, notify}
use telegram_bot_new_version.Economy.Coins.{credit}
use telegram_bot_new_version.Models.Users.{User}
use telegram_bot_new_version.Models.Social.{
  ReportStatus, UserReport, Issuer, WarningReason, UserWarning, approved, rejected, pending,
  report_approved, report_false, admin_action, false_report,
}
use telegram_bot_new_version.Prelude.{
  leb, ◌==◌, if◌then◌else◌, ℕ, ◌+◌, String, Bool, true, false, ◌||◌, Option, none, some, List, [],
  ◌∷◌,
}
use telegram_bot_new_version.Prelude.Table.{find, update}
use telegram_bot_new_version.Prelude.Int.{pos}
use telegram_bot_new_version.Models.Coins.{report_reward, report_reward_tx}

pub data IssueResult : Type 0 where
  user_not_found : IssueResult
  issued : ℕ → Bool → IssueResult

unfoldable pub warn : ℕ → User → User
warn max_warnings u = record u {
  warning_count = u.warning_count + 1;
  is_banned = leb max_warnings (u.warning_count + 1) || u.is_banned;
}

unfoldable pub warning_row : ℕ → WarningReason → Issuer → Option ℕ → Option ℕ → UserWarning
warning_row tg_id reason issuer report admin = record {
  user_tg_id = tg_id;
  reason = reason;
  issued_by = issuer;
  report_id = report;
  issued_by_admin_tg_id = admin;
}

-- The row, the count, the ban, and for a banned user the end of the match.
unfoldable pub issue_warning :
    (max_warnings now tg_id : ℕ)
    → WarningReason
    → Issuer
    → Option ℕ
    → Option ℕ
    → Db
    → Db × IssueResult × List Effect
unfolding warn warning_row
issue_warning max_warnings now tg_id reason issuer report admin d =
    elim (get_user_by_tg_id tg_id d) [
      | none ↦ (d, user_not_found, [])
      | some u ↦
          let warned = record (write_user tg_id (warn max_warnings) d) {
            warnings = warning_row tg_id reason issuer report admin ∷ d.warnings;
          } in
          let (ended, effects) = terminate_active_match now tg_id warned in
          if leb max_warnings (u.warning_count + 1)
          then (ended, issued (u.warning_count + 1) true, effects)
          else (warned, issued (u.warning_count + 1) false, [])
    ]

pub data ReportResult : Type 0 where
  report_not_found : ReportResult
  already : ReportStatus → ReportResult
  resolved : IssueResult → ReportResult

abbrev pub report_key : UserReport → ℕ
report_key r = r.id

unfoldable pub get_report : ℕ → Db → Option UserReport
get_report report d = find report_key report d.reports

unfoldable pub resolve : ReportStatus → ℕ → String → UserReport → UserReport
resolve status now note r = record r {
  status = status;
  resolved_at = some now;
  admin_note = some note;
}

unfoldable pub write_report : ℕ → (UserReport → UserReport) → Db → Db
write_report report f d = record d { reports = update report_key report f d.reports }

-- The reporter's reward: balance, earnings and log, if the account is still there.
unfoldable pub reward_reporter : ℕ → ℕ → ℕ → Db → Db
unfolding credit
reward_reporter reward report reporter d = elim (get_user_by_tg_id reporter d) [
  | none ↦ d
  | some u ↦
      add_coin_transaction
        (record {
          user_id = reporter;
          amount = pos reward;
          description = report_reward report;
          reference_id = some report;
          tx_type = report_reward_tx;
        })
        (write_user reporter (credit (pos reward)) d)
]

-- For a pending report: the row, the warning of the reported user, the reward of the reporter.
unfoldable pub approve :
    (max_warnings reward now report admin : ℕ) → UserReport → Db → Db × ReportResult × List Effect
unfolding write_report resolve
approve max_warnings reward now report admin r d =
    let marked = write_report report (resolve ReportStatus.approved now "Approved by admin") d in
    let (warned, answer, effects) =
      issue_warning max_warnings now r.reported_id (report_approved r.reason) admin_action
        (some report) (some admin) marked in
    (reward_reporter reward report r.reporter_id warned, resolved answer, effects)

unfoldable pub approve_report :
    (max_warnings reward now report admin : ℕ) → Db → Db × ReportResult × List Effect
approve_report max_warnings reward now report admin d = elim (get_report report d) [
  | none ↦ (d, report_not_found, [])
  | some r ↦ elim r.status [
    | pending ↦ approve max_warnings reward now report admin r d
    | approved ↦ (d, already approved, [])
    | rejected ↦ (d, already rejected, [])
  ]
]

-- For a pending report that is false: the row, and the warning of the reporter.
unfoldable pub reject :
    (max_warnings now report admin : ℕ) → UserReport → Db → Db × ReportResult × List Effect
unfolding write_report resolve
reject max_warnings now report admin r d =
    let marked =
      write_report report (resolve ReportStatus.rejected now "False report — rejected by admin")
        d in
    let (warned, answer, effects) =
      issue_warning max_warnings now r.reporter_id report_false false_report (some report)
        (some admin) marked in
    (warned, resolved answer, effects)

unfoldable pub reject_report :
    (max_warnings now report admin : ℕ) → Db → Db × ReportResult × List Effect
reject_report max_warnings now report admin d = elim (get_report report d) [
  | none ↦ (d, report_not_found, [])
  | some r ↦ elim r.status [
    | pending ↦ reject max_warnings now report admin r d
    | approved ↦ (d, already approved, [])
    | rejected ↦ (d, already rejected, [])
  ]
]

-- `create_user_report`: the fifth report, and only that one, bans.
unfoldable pub count_report : User → User
count_report u = record u {
  report_count = u.report_count + 1;
  is_banned = u.report_count + 1 == 5 || u.is_banned;
}

-- The `try` of an automatic ban: the mark in Redis, the message to the banned user, the end of the
-- match. `delivered` says whether that message goes through; where it does not, the handler of the
-- exception ends the block there.
unfoldable pub ban_effects : Bool → (now reported : ℕ) → Db → Db × List Effect
ban_effects delivered now reported d =
    let (ended, effects) = terminate_active_match now reported d in
    if delivered
    then (ended, mark_banned reported ∷ notify reported ∷ effects)
    else (d, mark_banned reported ∷ [])

unfoldable pub file_report : (reporter reported : ℕ) → String → Option ℕ → Db → Db
file_report reporter reported reason match_history d = record d {
  reports =
      record {
        id = d.next_id;
        reporter_id = reporter;
        reported_id = reported;
        reason = reason;
        match_history_id = match_history;
        status = ReportStatus.pending;
        admin_note = none;
        resolved_at = none;
      }
      ∷ d.reports;
  next_id = d.next_id + 1;
}

unfoldable pub create_user_report :
    Bool → (now reporter reported : ℕ) → String → Option ℕ → Db → Db × List Effect
create_user_report delivered now reporter reported reason match_history d =
    let filed = file_report reporter reported reason match_history d in
    elim (get_user_by_tg_id reported d) [
      | none ↦ (filed, [])
      | some u ↦
          let counted = write_user reported count_report filed in
          if u.report_count + 1 == 5
          then ban_effects delivered now reported counted
          else (counted, [])
    ]
