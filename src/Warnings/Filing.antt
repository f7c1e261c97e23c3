-- ===== src/Warnings/Filing.antt =====
-- `create_user_report` of database/queries/crud.py, seen through the coin log.
use telegram_bot_new_version.Models.{Db}
use telegram_bot_new_version.Session.{get_user_by_tg_id, write_user}
use telegram_bot_new_version.Warnings.{count_report, ban_effects, file_report, create_user_report}
use telegram_bot_new_version.Session.Ledger.{IsAudited, write_user-IsAudited}
use telegram_bot_new_version.Prelude.{Option-cases, ℕ, String, refl, inl, inr, Bool, Option, arith}
use telegram_bot_new_version.Warnings.Strikes.{users-terminate, coin_transactions-terminate}

pub create_user_report-IsAudited :
    (delivered : Bool) (now reporter reported : ℕ) (reason : String) (history : Option ℕ) (d : Db)
    (j : ℕ)
    → IsAudited j d
    → IsAudited j (create_user_report delivered now reporter reported reason history d).0
unfolding create_user_report ban_effects count_report file_report
create_user_report-IsAudited delivered now reporter reported reason history d j h =
    let filed = file_report reporter reported reason history d in
    let counted = write_user reported count_report filed in
    let kept : IsAudited j counted =
      write_user-IsAudited reported count_report filed (λ v. refl) j (λ v. refl) h in
    elim (Option-cases (get_user_by_tg_id reported d)) [
      | inl e ↦ ground arith
      | inr (u, e) ↦ ground (
        arith,
        kept,
        users-terminate now reported counted,
        coin_transactions-terminate now reported counted,
      )
    ]
