-- ===== src/Warnings/Reports.antt =====
-- `approve_report` and `reject_report` of services/warning_engine.py, and `create_user_report` of
-- database/queries/crud.py: each report is resolved once, and rewards go through the log.
use telegram_bot_new_version.Models.{Db}
use telegram_bot_new_version.Session.{get_user_by_tg_id, write_user}
use telegram_bot_new_version.Warnings.{
  warn, warning_row, issue_warning, report_key, get_report, resolve, write_report, reward_reporter,
  approve, approve_report, reject, reject_report, create_user_report, already, count_report,
  ban_effects, file_report,
}
use telegram_bot_new_version.Matches.{terminate_active_match, get_active_match}
use telegram_bot_new_version.Economy.Coins.{credit}
use telegram_bot_new_version.Models.Social.{
  ReportStatus, Issuer, WarningReason, report_approved, report_false, admin_action, false_report,
  UserReport,
}
use telegram_bot_new_version.Models.Coins.{CoinTransaction, report_reward, report_reward_tx}
use telegram_bot_new_version.Session.Ledger.{
  IsAudited, IsCounted, post-IsAudited, write_user-IsCounted, get_user-write_user,
}
use telegram_bot_new_version.Prelude.{
  Option-cases, ℕ, String, ◌≡◌, refl, ◌∙◌, inl, inr, Option, some, ◌∷◌, arith, if◌then◌else◌, Bool,
  true, none, [],
}
use telegram_bot_new_version.Prelude.Table.{map_option, find-update}
use telegram_bot_new_version.Prelude.Int.{int_laws, +ℤ_raise, pos}
use telegram_bot_new_version.Warnings.Strikes.{issued_db, issue_warning-IsAudited, users-terminate}
use telegram_bot_new_version.Matches.Ended.{OneActive, terminate-none}
use telegram_bot_new_version.Models.Users.{User}

module _ (reward report reporter : ℕ) (d : Db) (j : ℕ) where
  reward_reporter-IsAudited : IsAudited j d → IsAudited j (reward_reporter reward report reporter d)
  unfolding reward_reporter
  reward_reporter-IsAudited h = elim (Option-cases (get_user_by_tg_id reporter d)) [
    | inl e ↦ ground arith
    | inr (u, e) ↦
        let t : CoinTransaction = record {
          user_id = reporter;
          amount = pos reward;
          description = report_reward report;
          reference_id = some report;
          tx_type = report_reward_tx;
        } in
        ground (
          arith,
          post-IsAudited reporter (credit (pos reward)) d (λ v. refl) j t refl (rw e (λ n. cc))
              (λ v. refl) (λ v e' s. omega int_laws) h,
        )
  ]

  reward_reporter-IsCounted : IsCounted j d → IsCounted j (reward_reporter reward report reporter d)
  unfolding reward_reporter
  reward_reporter-IsCounted h = ground (
    arith,
    write_user-IsCounted reporter (credit (pos reward)) d (λ v. refl) j (λ v c. +ℤ_raise _ _ _ _ c)
        h,
  )

-- The reports of a state, whatever else is written.
reports-terminate : (now k : ℕ) (d : Db) → (terminate_active_match now k d).0.reports ≡ d.reports
unfolding terminate_active_match
reports-terminate now k d = ground arith

reports-issue_warning :
    (max_warnings now k : ℕ) (reason : WarningReason) (issuer : Issuer) (report admin : Option ℕ)
    → (d : Db)
    → (issue_warning max_warnings now k reason issuer report admin d).0.reports ≡ d.reports
unfolding issue_warning
reports-issue_warning max_warnings now k reason issuer report admin d =
    let written = record (write_user k (warn max_warnings) d) {
      warnings = warning_row k reason issuer report admin ∷ d.warnings;
    } in
    ground (arith, reports-terminate now k written)

reports-reward_reporter :
    (reward report reporter : ℕ) (d : Db)
    → (reward_reporter reward report reporter d).reports ≡ d.reports
unfolding reward_reporter
reports-reward_reporter reward report reporter d = ground arith

module _ (max_warnings reward now report admin : ℕ) (d : Db) (j : ℕ) where
  -- Resolving a report, either way, leaves the log in accord with every balance.
  pub approve_report-IsAudited :
      IsAudited j d → IsAudited j (approve_report max_warnings reward now report admin d).0
  unfolding approve_report approve
  approve_report-IsAudited h = elim (Option-cases (get_report report d)) [
    | inl e ↦ ground arith
    | inr (r, e) ↦
        let marked =
          write_report report (resolve ReportStatus.approved now "Approved by admin") d in
        let marked-IsAudited : IsAudited j marked = unfold write_report in h in
        let warned =
          issued_db max_warnings now r.reported_id (report_approved r.reason) admin_action
            (some report) (some admin) marked in
        ground (
          arith,
          reward_reporter-IsAudited reward report r.reporter_id warned j (
              issue_warning-IsAudited max_warnings now r.reported_id (report_approved r.reason)
                admin_action (some report) (some admin) marked j marked-IsAudited),
        )
  ]

  pub reject_report-IsAudited :
      IsAudited j d → IsAudited j (reject_report max_warnings now report admin d).0
  unfolding reject_report reject
  reject_report-IsAudited h = elim (Option-cases (get_report report d)) [
    | inl e ↦ ground arith
    | inr (r, e) ↦
        let marked =
          write_report report (resolve ReportStatus.rejected now "False report — rejected by admin")
            d in
        let marked-IsAudited : IsAudited j marked = unfold write_report in h in
        ground (
          arith,
          issue_warning-IsAudited max_warnings now r.reporter_id report_false false_report
              (some report) (some admin) marked j marked-IsAudited,
        )
  ]

get_report-write :
    (report : ℕ) (status : ReportStatus) (now : ℕ) (note : String) (d : Db)
    → get_report report (write_report report (resolve status now note) d)
      ≡ map_option (resolve status now note) (get_report report d)
unfolding get_report write_report resolve
get_report-write report status now note d =
    find-update report_key report report (resolve status now note) d.reports (λ r. refl)
    ∙ ground arith

module _ (max_warnings reward now report admin : ℕ) (d : Db) where
  get_report-approve :
      (r : UserReport)
      → get_report report d ≡ some r
      → get_report report (approve max_warnings reward now report admin r d).0
        ≡ some (resolve ReportStatus.approved now "Approved by admin" r)
  unfolding approve get_report
  get_report-approve r e =
      let marked = write_report report (resolve ReportStatus.approved now "Approved by admin") d in
      let warned =
        issued_db max_warnings now r.reported_id (report_approved r.reason) admin_action
          (some report) (some admin) marked in
      ground (
        arith,
        reports-reward_reporter reward report r.reporter_id warned,
        reports-issue_warning max_warnings now r.reported_id (report_approved r.reason) admin_action
            (some report) (some admin) marked,
        get_report-write report ReportStatus.approved now "Approved by admin" d,
      )

  get_report-reject :
      (r : UserReport)
      → get_report report d ≡ some r
      → get_report report (reject max_warnings now report admin r d).0
        ≡ some (resolve ReportStatus.rejected now "False report — rejected by admin" r)
  unfolding reject get_report
  get_report-reject r e =
      let note : String = "False report — rejected by admin" in
      let marked = write_report report (resolve ReportStatus.rejected now note) d in
      ground (
        arith,
        reports-issue_warning max_warnings now r.reporter_id report_false false_report (some report)
            (some admin) marked,
        get_report-write report ReportStatus.rejected now note d,
      )

  -- A report is resolved once. After an approval or a rejection of a pending report, whichever of the
  -- two comes next, from any admin, answers that it is resolved, and warns and rewards nobody.
  pub resolved_once :
      (r : UserReport) (later admin' : ℕ)
      → get_report report d ≡ some r
      → r.status ≡ ReportStatus.pending
      → let a = (approve_report max_warnings reward now report admin d).0 in
        let b = (reject_report max_warnings now report admin d).0 in
        (approve_report max_warnings reward later report admin' a
          ≡ (a, already ReportStatus.approved, []))
        × (reject_report max_warnings later report admin' a
            ≡ (a, already ReportStatus.approved, []))
        × (approve_report max_warnings reward later report admin' b
            ≡ (b, already ReportStatus.rejected, []))
        × (reject_report max_warnings later report admin' b
            ≡ (b, already ReportStatus.rejected, []))
  unfolding approve_report reject_report resolve
  resolved_once r later admin' e fresh =
      let a = get_report-approve r e in
      let b = get_report-reject r e in
      (ground (arith, a), ground (arith, a), ground (arith, b), ground (arith, b))

get_active_match-counted :
    (reporter reported : ℕ) (reason : String) (history : Option ℕ) (d : Db)
    → get_active_match reported
        (write_user reported count_report (file_report reporter reported reason history d))
      ≡ get_active_match reported d
unfolding get_active_match file_report
get_active_match-counted reporter reported reason history d = refl

-- The report that makes five bans the reported user and ends the match that is active, if the message
-- to that user goes through; if it does not, the ban stands and the match goes on as it was.
pub fifth_report :
    (delivered : Bool) (now reporter reported i : ℕ) (reason : String) (history : Option ℕ) (d : Db)
    → (u : User) → get_user_by_tg_id reported d ≡ some u
    → u.report_count ≡ 4
    → OneActive reported i d.matches
    → let d' = (create_user_report delivered now reporter reported reason history d).0 in
      (get_user_by_tg_id reported d' ≡ some (record u { report_count = 5; is_banned = true }))
      × (get_active_match reported d' ≡ (if delivered then none else get_active_match reported d))
unfolding create_user_report ban_effects count_report file_report
fifth_report delivered now reporter reported i reason history d u e four one =
    let counted =
      write_user reported count_report (file_report reporter reported reason history d) in
    (
      ground (
        arith,
        e,
        users-terminate now reported counted,
        get_user-write_user reported count_report d (λ v. refl) reported,
      ),
      ground (
        arith,
        e,
        terminate-none now reported i counted one,
        get_active_match-counted reporter reported reason history d,
      ),
    )
