-- ===== src/Referral.antt =====
-- services/referral_engine.py: `class ReferralEngine`. `pct` is the setting REFERRAL_COMMISSION_PCT of
-- bot/core/config.py (20 by default).
use text.Mathlib.Text.{◌==◌ as str_eq, starts_with}
pub mod Commission
pub mod Codes
use telegram_bot_new_version.Models.{Db}
use telegram_bot_new_version.Session.{get_user_by_tg_id, write_user, add_coin_transaction}
use telegram_bot_new_version.Economy.Accounts.{new_user}
use telegram_bot_new_version.Models.Users.{User}
use telegram_bot_new_version.Models.Coins.{Description, TxType, ReferralCommission}
use telegram_bot_new_version.Gifts.Inventory.{held}
use telegram_bot_new_version.Prelude.{
  leb, ◌==◌, if◌then◌else◌, is_some, count_if, ℕ, zero, suc, ◌+◌, ◌*◌, ◌/◌, String, Bool, true,
  false, not, Option, none, some, List, [], ◌∷◌,
}
use telegram_bot_new_version.Prelude.Table.{find_by}
use telegram_bot_new_version.Prelude.Int.{ℤ, ◌+ℤ◌, pos}

abbrev pub has_referral_code : String → User → Bool
has_referral_code code u = elim u.referral_code [ none ↦ false | some held ↦ str_eq held code ]

-- A code that is present and not the empty text.
abbrev pub truthy : Option String → Bool
truthy none = false
truthy (some code) = not (str_eq code "")

unfoldable pub set_referral_code : String → User → User
set_referral_code code u = record u { referral_code = some code }

-- The attempts of `ensure_referral_code`: `codes` are those that `generate_referral_code` gives.
unfoldable pub first_unused : List String → Db → Option String
first_unused [] d = none
first_unused (code ∷ codes) d =
    if is_some (find_by (has_referral_code code) d.users) then first_unused codes d else some code

unfoldable pub fresh_code : List String → String → Db → String
unfolding first_unused
fresh_code codes fallback d = elim (first_unused codes d) [ none ↦ fallback | some code ↦ code ]

-- The caller passes five codes; `fallback` is the text `R` and the id. The answer is the code. The
-- code of a missing user is a missing code.
unfoldable pub ensure_referral_code : ℕ → List String → String → Db → Db × String
unfolding fresh_code set_referral_code
ensure_referral_code tg_id codes fallback d =
    let fresh : String = fresh_code codes fallback d in
    let given : Db × String = (write_user tg_id (set_referral_code fresh) d, fresh) in
    elim (get_user_by_tg_id tg_id d) [
      | none ↦ given
      | some u ↦ elim u.referral_code [
        | none ↦ given
        | some code ↦ if str_eq code "" then given else (d, code)
      ]
    ]

-- `s[n:]`
unfoldable pub drop_chars : ℕ → String → String
drop_chars zero s = s
drop_chars (suc n) String.[] = ""
drop_chars (suc n) (String.◌∷◌ c s) = drop_chars n s

unfoldable pub strip_ref : String → String
unfolding drop_chars
strip_ref code = if starts_with code "ref_" then drop_chars 4 code else code

unfoldable pub set_referrer : ℕ → User → User
set_referrer referrer u = record u { referrer_id = some referrer }

unfoldable pub attribute_referral : ℕ → String → Db → Db × Bool
unfolding strip_ref set_referrer
attribute_referral new_user code d =
    if str_eq code ""
    then (d, false)
    else elim (find_by (has_referral_code (strip_ref code)) d.users) [
      | none ↦ (d, false)
      | some referrer ↦
          if referrer.tg_id == new_user
          then (d, false)
          else (write_user new_user (set_referrer referrer.tg_id) d, true)
    ]

-- The three columns that a commission raises.
unfoldable pub earn : ℤ → User → User
earn n u = record u {
  coin_balance = u.coin_balance +ℤ n;
  total_earned_coins = u.total_earned_coins +ℤ n;
  referral_earnings = u.referral_earnings +ℤ n;
}

unfoldable pub commission_of : ℕ → ℕ → ℕ
commission_of pct coins = coins * pct / 100

unfoldable pub pay_commission : (pct order buyer referrer commission : ℕ) → Db → Db
unfolding earn
pay_commission pct order buyer referrer commission d =
    add_coin_transaction
      (record {
        user_id = referrer;
        amount = pos commission;
        description = Description.commission_pct pct;
        reference_id = some order;
        tx_type = TxType.referral_commission;
      })
      (record (write_user referrer (earn (pos commission)) d) {
        commissions =
            record {
              referrer_tg_id = referrer;
              referred_tg_id = buyer;
              purchase_order_id = order;
              commission_pct = pct;
              commission_coins = commission;
            }
            ∷ d.commissions;
      })

-- `buyer.referrer_id`, where 0 counts as none.
unfoldable pub referrer_of : Option User → Option ℕ
referrer_of none = none
referrer_of (some u) = elim u.referrer_id [ none ↦ none | some r ↦ if r == 0 then none else some r ]

-- The commission that was paid, or none. A purchase of 0 coins or less is 0 here. The caller commits.
unfoldable pub process_commission_on_purchase : (pct order buyer coins : ℕ) → Db → Db × Option ℕ
unfolding commission_of referrer_of
process_commission_on_purchase pct order buyer coins d =
    let commission = commission_of pct coins in
    if leb coins 0 then (d, none) else elim (referrer_of (get_user_by_tg_id buyer d)) [
      | none ↦ (d, none)
      | some referrer ↦
          if leb commission 0 then (d, none) else elim (get_user_by_tg_id referrer d) [
            | none ↦ (d, none)
            | some u ↦ (pay_commission pct order buyer referrer commission d, some commission)
          ]
    ]

-- `get_referral_stats`, its two numbers.
unfoldable pub total_referred : ℕ → Db → ℕ
total_referred referrer d =
    count_if (λ u. elim u.referrer_id [ none ↦ false | some r ↦ r == referrer ]) d.users

unfoldable pub sum_commissions : ℕ → List ReferralCommission → ℕ
sum_commissions referrer [] = 0
sum_commissions referrer (c ∷ cs) =
    (if c.referrer_tg_id == referrer then c.commission_coins else 0) + sum_commissions referrer cs
