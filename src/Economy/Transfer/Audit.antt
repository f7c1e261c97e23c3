-- ===== src/Economy/Transfer/Audit.antt =====
-- `transfer_coins` of database/queries/crud.py, seen through the coin log.
use telegram_bot_new_version.Models.{Db}
use telegram_bot_new_version.Session.{get_user_by_tg_id}
use telegram_bot_new_version.Economy.Transfer.{
  move_coins, transfer_coins, transfer_out, transfer_in,
}
use telegram_bot_new_version.Economy.Audit.{process-IsAudited}
use telegram_bot_new_version.Economy.Coins.{process_coin_transaction}
use telegram_bot_new_version.Economy.Coins.Keeps.{process-known}
use telegram_bot_new_version.Session.Ledger.{IsAudited}
use telegram_bot_new_version.Prelude.{Option-cases, ℕ, inl, inr, true, none, arith}
use telegram_bot_new_version.Prelude.Int.{ℤ, neg}

-- A transfer, made or refused, leaves the coin log in accord with every balance.
pub transfer_coins-IsAudited :
    (from_id to_id : ℕ) (amount : ℤ) (d : Db) (j : ℕ)
    → IsAudited j d
    → IsAudited j (transfer_coins from_id to_id amount d).0
unfolding transfer_coins move_coins
transfer_coins-IsAudited from_id to_id amount d j h =
    elim (Option-cases (get_user_by_tg_id from_id d)) [
      | inl e ↦ ground arith
      | inr (u, e) ↦ elim (Option-cases (get_user_by_tg_id to_id d)) [
        | inl e' ↦ ground arith
        | inr (v, e') ↦
            let out = transfer_out v.public_id in
            let paid = (process_coin_transaction none from_id (neg amount) out true none d).0 in
            let first =
              process-IsAudited from_id none d j h none (neg amount) out true (rw e (λ n. cc)) tt in
            let known =
              process-known none from_id (neg amount) out true none d to_id (rw e' (λ n. cc)) in
            ground (
              arith,
              first,
              process-IsAudited to_id none paid j first none amount (transfer_in u.public_id) true
                  known tt,
            )
      ]
    ]
