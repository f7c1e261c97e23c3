-- ===== src/Quota.antt =====
-- `consume_vip_quota_or_coin` of database/queries/crud.py.
pub mod Payment
use telegram_bot_new_version.Models.{Db}
use telegram_bot_new_version.Session.{get_user_by_tg_id, write_user, add_coin_transaction}
use telegram_bot_new_version.Economy.Coins.{debit}
use telegram_bot_new_version.Models.Users.{User}
use telegram_bot_new_version.Models.Time.{DateTime, later_than, naive}
use telegram_bot_new_version.Models.Coins.{CoinTransaction, service_cost, generic}
use telegram_bot_new_version.Level.Bounds.{cost}
use telegram_bot_new_version.Prelude.{
  leb, if◌then◌else◌, ℕ, ◌-◌, String, Bool, true, false, Option, none, some,
}
use telegram_bot_new_version.Prelude.Int.{neg, leb_ℤ, pos}

pub data Consumed : Type 0 where
  free refused : Consumed
  no_user : Consumed
  by_vip by_quota by_coins : Consumed
  type_error : Consumed

-- `bool(user.is_vip) and (not user.vip_expires_at or user.vip_expires_at > now_utc)`, where `now_utc`
-- has no zone; `none` is the TypeError of an expiry that has one.
unfoldable pub vip_valid : Option DateTime → ℕ → Option Bool
vip_valid none now = some true
vip_valid (some expiry) now = later_than expiry (naive now)

unfoldable pub is_vip_active : User → ℕ → Option Bool
unfolding vip_valid
is_vip_active u now = if u.is_vip then vip_valid u.vip_expires_at now else some false

pub use_quota : ℕ → User → User
use_quota cost u = record u { vip_quota = u.vip_quota - cost }

pub spend_log : ℕ → ℕ → String → Option ℕ → CoinTransaction
spend_log tg_id cost text reference = record {
  user_id = tg_id;
  amount = neg (pos cost);
  description = service_cost text;
  reference_id = reference;
  tx_type = generic;
}

-- Past the VIP test: the quota first, then the coins.
pub from_quota_or_coins : ℕ → ℕ → String → Option ℕ → User → Db → Db × Consumed
unfolding use_quota spend_log debit
from_quota_or_coins tg_id cost text reference u d =
    if leb cost u.vip_quota
    then (write_user tg_id (use_quota cost) d, by_quota)
    else if leb_ℤ (pos cost) u.coin_balance
    then (
      add_coin_transaction (spend_log tg_id cost text reference)
          (write_user tg_id (debit (pos cost)) d),
      by_coins,
    )
    else (d, refused)

-- Which branch was taken, where the source returns True for `free` and the three `by_…`, and False for
-- `refused` and `no_user`. A cost of 0 or less is 0 here.
pub consume_vip_quota_or_coin : ℕ → ℕ → ℕ → String → Option ℕ → Db → Db × Consumed
unfolding is_vip_active from_quota_or_coins
consume_vip_quota_or_coin now tg_id cost text reference d =
    if leb cost 0 then (d, free) else elim (get_user_by_tg_id tg_id d) [
      | none ↦ (d, no_user)
      | some u ↦ elim (is_vip_active u now) [
        | none ↦ (d, type_error)
        | some active ↦
            if active then (d, by_vip) else from_quota_or_coins tg_id cost text reference u d
      ]
    ]

-- What the caller sees.
pub succeeded : Consumed → Bool
succeeded free = true
succeeded refused = false
succeeded no_user = false
succeeded by_vip = true
succeeded by_quota = true
succeeded by_coins = true
succeeded type_error = false
