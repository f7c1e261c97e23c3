-- ===== src/Referral/Commission.antt =====
-- `process_commission_on_purchase` of services/referral_engine.py.
use telegram_bot_new_version.Models.{Db}
use telegram_bot_new_version.Session.{get_user_by_tg_id}
use telegram_bot_new_version.Referral.{
  process_commission_on_purchase, sum_commissions, pos, earn, commission_of, pay_commission,
  referrer_of,
}
use telegram_bot_new_version.Models.Users.{User}
use telegram_bot_new_version.Models.Coins.{ReferralCommission, Description, TxType, CoinTransaction}
use telegram_bot_new_version.Session.Ledger.{IsAudited, post-IsAudited}
use telegram_bot_new_version.Prelude.{
  ℕ, ◌+◌, ◌*◌, ◌≤◌, ◌<◌, ◌≡◌, Option, none, some, List, Option-cases, refl, inl, inr, arith, leb,
  Bool-cases,
}
use telegram_bot_new_version.Prelude.Int.{int_laws}

-- What a referrer has earned by referrals is the sum of the recorded commissions.
abbrev pub EarnedByCommissions : ℕ → List ReferralCommission → Option User → Type 0
EarnedByCommissions k cs none = Unit
EarnedByCommissions k cs (some u) = u.referral_earnings ≡ pos (sum_commissions k cs)

pay_commission-IsAudited :
    (pct order buyer referrer commission : ℕ) (d : Db) (j : ℕ)
    → IsAudited j d
    → (u : User) → get_user_by_tg_id referrer d ≡ some u
    → IsAudited j (pay_commission pct order buyer referrer commission d)
unfolding pay_commission
pay_commission-IsAudited pct order buyer referrer commission d j h u e =
    let t : CoinTransaction = record {
      user_id = referrer;
      amount = pos commission;
      description = Description.commission_pct pct;
      reference_id = some order;
      tx_type = TxType.referral_commission;
    } in
    post-IsAudited referrer (earn (pos commission)) d (λ v. refl) j t refl (rw e (λ n. cc))
      (λ v. refl) (λ v e' s. omega int_laws) h

module _ (pct order buyer coins : ℕ) (d : Db) where
  pub process_commission-IsAudited :
      (j : ℕ)
      → IsAudited j d
      → IsAudited j (process_commission_on_purchase pct order buyer coins d).0
  unfolding process_commission_on_purchase
  process_commission-IsAudited j h = elim (Option-cases (referrer_of (get_user_by_tg_id buyer d))) [
    | inl e ↦ ground arith
    | inr (r, e) ↦ elim (Option-cases (get_user_by_tg_id r d)) [
      | inl e' ↦ ground arith
      | inr (u, e') ↦
          ground
            (arith, pay_commission-IsAudited pct order buyer r (commission_of pct coins) d j h u e')
    ]
  ]

  -- A commission is `pct` percent of the coins, rounded down, at most the coins themselves for a
  -- percentage of at most 100, and never 0.
  pub commission_bounds :
      (c : ℕ)
      → pct ≤ 100
      → (process_commission_on_purchase pct order buyer coins d).1 ≡ some c
      → (c * 100 ≤ coins * pct) × (coins * pct < c * 100 + 100) × (c ≤ coins) × (0 < c)
  unfolding process_commission_on_purchase
  commission_bounds c h e =
      let most : coins * pct ≤ coins * 100 = grind arith in
      elim (Option-cases (referrer_of (get_user_by_tg_id buyer d))) [
        | inl e' ↦ ground arith
        | inr (r, e') ↦ elim (Option-cases (get_user_by_tg_id r d)) [
          | inl e'' ↦ ground arith
          | inr (u, e'') ↦ elim (Bool-cases (leb (commission_of pct coins) 0)) [
            | inl z ↦ ground arith
            | inr z ↦ ground (arith, most)
          ]
        ]
      ]
