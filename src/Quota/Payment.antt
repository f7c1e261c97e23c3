-- ===== src/Quota/Payment.antt =====
-- What `consume_vip_quota_or_coin` takes, and from where.
use telegram_bot_new_version.Models.{Db}
use telegram_bot_new_version.Session.{get_user_by_tg_id}
use telegram_bot_new_version.Quota.{
  consume_vip_quota_or_coin, use_quota, spend_log, from_quota_or_coins,
}
use telegram_bot_new_version.Economy.Coins.{debit}
use telegram_bot_new_version.Models.Users.{User}
use telegram_bot_new_version.Session.Ledger.{
  IsAudited, IsCounted, write_user-IsAudited, post-IsAudited, write_user-IsCounted,
}
use telegram_bot_new_version.Prelude.Int.{pos, leb_ℤ, int_laws, +ℤ_shift}
use telegram_bot_new_version.Prelude.{
  ℕ, String, ◌≡◌, Option, some, Bool-cases, Option-cases, refl, inl, inr, arith,
}

module _ (tg_id cost : ℕ) (text : String) (reference : Option ℕ) (d : Db) (j : ℕ) where
  from_quota_or_coins-IsAudited :
      (u : User)
      → get_user_by_tg_id tg_id d ≡ some u
      → IsAudited j d
      → IsAudited j (from_quota_or_coins tg_id cost text reference u d).0
  unfolding from_quota_or_coins use_quota
  from_quota_or_coins-IsAudited u e h =
      let quota = write_user-IsAudited tg_id (use_quota cost) d (λ v. refl) j (λ v. refl) h in
      elim (Bool-cases (leb_ℤ (pos cost) u.coin_balance)) [
        | inl covered ↦ ground (
          arith,
          quota,
          post-IsAudited tg_id (debit (pos cost)) d (λ v. refl) j
              (spend_log tg_id cost text reference) refl (λ n. cc) (λ v. omega int_laws)
              (λ v e' s. grind int_laws) h,
        )
        | inr short ↦ ground (arith, quota)
      ]

  from_quota_or_coins-IsCounted :
      (u : User) → IsCounted j d → IsCounted j (from_quota_or_coins tg_id cost text reference u d).0
  unfolding from_quota_or_coins use_quota
  from_quota_or_coins-IsCounted u h = ground (
    arith,
    write_user-IsCounted tg_id (use_quota cost) d (λ v. refl) j (λ v c. c) h,
    write_user-IsCounted tg_id (debit (pos cost)) d (λ v. refl) j (λ v c. +ℤ_shift _ _ _ _ c) h,
  )

module _ (now tg_id cost : ℕ) (text : String) (reference : Option ℕ) (d : Db) where
  -- Spent coins are logged, and a balance is never overdrawn.
  pub consume-IsAudited :
      (j : ℕ)
      → IsAudited j d
      → IsAudited j (consume_vip_quota_or_coin now tg_id cost text reference d).0
  unfolding consume_vip_quota_or_coin
  consume-IsAudited j h = elim (Option-cases (get_user_by_tg_id tg_id d)) [
    | inl e ↦ ground arith
    | inr (u, e) ↦ ground (arith, from_quota_or_coins-IsAudited tg_id cost text reference d j u e h)
  ]

  pub consume-IsCounted :
      (j : ℕ)
      → IsCounted j d
      → IsCounted j (consume_vip_quota_or_coin now tg_id cost text reference d).0
  unfolding consume_vip_quota_or_coin
  consume-IsCounted j h = elim (Option-cases (get_user_by_tg_id tg_id d)) [
    | inl e ↦ ground arith
    | inr (u, e) ↦ ground (arith, from_quota_or_coins-IsCounted tg_id cost text reference d j u h)
  ]
