-- ===== src/Warnings/Strikes.antt =====
-- `issue_warning` of services/warning_engine.py: warnings add up to a ban, and to the rows of the table.
use telegram_bot_new_version.Models.{Db}
use telegram_bot_new_version.Session.{get_user_by_tg_id, write_user}
use telegram_bot_new_version.Warnings.{warn, issue_warning, warning_row}
use telegram_bot_new_version.Matches.{terminate_active_match}
use telegram_bot_new_version.Models.Users.{User}
use telegram_bot_new_version.Models.Social.{
  Issuer, WarningReason, UserWarning, report_false, false_report,
}
use telegram_bot_new_version.Prelude.{
  ◌==◌, if◌then◌else◌, count_if, ℕ, ◌≡◌, Option, none, some, List, arith, Option-cases, refl, inl,
  inr, ◌∷◌, leb, is_some, zero, suc, ◌+◌, ◌||◌,
}
use telegram_bot_new_version.Prelude.Table.{map_option}
use telegram_bot_new_version.Session.Ledger.{IsAudited, IsCounted, get_user-write_user}

-- Ending a match writes no other table than that of the matches.
pub users-terminate : (now k : ℕ) (d : Db) → (terminate_active_match now k d).0.users ≡ d.users
unfolding terminate_active_match
users-terminate now k d = ground arith

pub coin_transactions-terminate :
    (now k : ℕ) (d : Db)
    → (terminate_active_match now k d).0.coin_transactions ≡ d.coin_transactions
unfolding terminate_active_match
coin_transactions-terminate now k d = ground arith

warnings-terminate : (now k : ℕ) (d : Db) → (terminate_active_match now k d).0.warnings ≡ d.warnings
unfolding terminate_active_match
warnings-terminate now k d = ground arith

-- The number of warnings on the row is the number of rows in `user_warnings`.
abbrev pub Tallies : ℕ → List UserWarning → Option User → Type 0
Tallies k ws none = Unit
Tallies k ws (some u) = u.warning_count ≡ count_if (λ w. w.user_tg_id == k) ws

module _ (max_warnings now tg_id : ℕ) (reason : WarningReason) (issuer : Issuer) where
  module _ (report admin : Option ℕ) (d : Db) where
    abbrev pub issued_db : Db
    issued_db = (issue_warning max_warnings now tg_id reason issuer report admin d).0

    -- One warning more on the row, the ban at the limit, and nothing else on it; no other user changes.
    pub get_user-issue_warning :
        (j : ℕ)
        → get_user_by_tg_id j issued_db ≡ (
            if tg_id == j
            then map_option (warn max_warnings) (get_user_by_tg_id j d)
            else get_user_by_tg_id j d)
    unfolding issue_warning warn
    get_user-issue_warning j = elim (Option-cases (get_user_by_tg_id tg_id d)) [
      | inl e ↦ ground arith
      | inr (u, e) ↦
          let written = record (write_user tg_id (warn max_warnings) d) {
            warnings = warning_row tg_id reason issuer report admin ∷ d.warnings;
          } in
          ground (
            arith,
            users-terminate now tg_id written,
            get_user-write_user tg_id (warn max_warnings) d (λ v. refl) j,
          )
    ]

    pub coin_transactions-issue_warning : issued_db.coin_transactions ≡ d.coin_transactions
    unfolding issue_warning
    coin_transactions-issue_warning =
        let written = record (write_user tg_id (warn max_warnings) d) {
          warnings = warning_row tg_id reason issuer report admin ∷ d.warnings;
        } in
        ground (arith, coin_transactions-terminate now tg_id written)

    warnings-issue_warning : issued_db.warnings ≡ (
        if is_some (get_user_by_tg_id tg_id d)
        then warning_row tg_id reason issuer report admin ∷ d.warnings
        else d.warnings)
    unfolding issue_warning
    warnings-issue_warning =
        let written = record (write_user tg_id (warn max_warnings) d) {
          warnings = warning_row tg_id reason issuer report admin ∷ d.warnings;
        } in
        ground (arith, warnings-terminate now tg_id written)

    -- A warning is counted on the row exactly as it is filed.
    pub issue_warning-Tallies :
        (j : ℕ)
        → Tallies j d.warnings (get_user_by_tg_id j d)
        → Tallies j issued_db.warnings (get_user_by_tg_id j issued_db)
    unfolding count_if warn warning_row
    issue_warning-Tallies j h = elim (Option-cases (get_user_by_tg_id j d)) [
      | inl e ↦ ground (arith, get_user-issue_warning j)
      | inr (u, e) ↦ ground (arith, get_user-issue_warning j, warnings-issue_warning)
    ]

    pub issue_warning-IsAudited : (j : ℕ) → IsAudited j d → IsAudited j issued_db
    unfolding warn
    issue_warning-IsAudited j h = elim (Option-cases (get_user_by_tg_id j d)) [
      | inl e ↦ ground (arith, get_user-issue_warning j, coin_transactions-issue_warning)
      | inr (u, e) ↦ ground (arith, get_user-issue_warning j, coin_transactions-issue_warning)
    ]

    pub issue_warning-IsCounted : (j : ℕ) → IsCounted j d → IsCounted j issued_db
    unfolding warn
    issue_warning-IsCounted j h = elim (Option-cases (get_user_by_tg_id j d)) [
      | inl e ↦ ground (arith, get_user-issue_warning j)
      | inr (u, e) ↦ ground (arith, get_user-issue_warning j)
    ]

-- `n` warnings of one user, one after the other.
abbrev pub warn_times : (max_warnings now tg_id n : ℕ) → Db → Db
warn_times max_warnings now tg_id zero d = d
warn_times max_warnings now tg_id (suc n) d =
    issued_db max_warnings now tg_id report_false false_report none none
      (warn_times max_warnings now tg_id n d)

-- After `n` warnings, at least one, the user is banned exactly when the limit is reached or was banned
-- before.
pub warn_times-banned :
    (max_warnings now tg_id n : ℕ) (d : Db) (u : User)
    → get_user_by_tg_id tg_id d ≡ some u
    → (v : User) × (get_user_by_tg_id tg_id (warn_times max_warnings now tg_id (suc n) d) ≡ some v)
      × (v.warning_count ≡ u.warning_count + suc n)
      × (v.is_banned ≡ (leb max_warnings (u.warning_count + suc n) || u.is_banned))
unfolding warn
warn_times-banned max_warnings now tg_id zero d u e =
    let w =
      get_user-issue_warning max_warnings now tg_id report_false false_report none none d tg_id in
    (warn max_warnings u, ground (arith, w), ground arith, ground arith)
warn_times-banned max_warnings now tg_id (suc n) d u e =
    let d' = warn_times max_warnings now tg_id (suc n) d in
    let (v, ev, cv, bv) = warn_times-banned max_warnings now tg_id n d u e in
    let w =
      get_user-issue_warning max_warnings now tg_id report_false false_report none none d' tg_id in
    (warn max_warnings v, ground (arith, w, ev), ground (arith, cv), ground (arith, cv, bv))
