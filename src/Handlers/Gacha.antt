-- ===== src/Handlers/Gacha.antt =====
-- `process_open_lootbox` of bot/handlers/gacha.py. The texts of the answer are left out. The chances of
-- the configuration are whole parts of `_RNG_SCALE`; the rounding of their sums is left out.
pub mod Rates
pub mod Opened
use telegram_bot_new_version.Models.{Db}
use telegram_bot_new_version.Session.{get_user_by_tg_id, write_user}
use telegram_bot_new_version.Level.{add_xp_to_user}
use telegram_bot_new_version.Economy.Coins.{Event, process_coin_transaction}
use telegram_bot_new_version.Models.Users.{User}
use telegram_bot_new_version.Prelude.{
  ltb, if◌then◌else◌, ℕ, ◌+◌, ◌-◌, Bool, true, false, Option, none, some, List, [], ◌∷◌,
}
use telegram_bot_new_version.Prelude.Int.{pos}
use telegram_bot_new_version.Models.Coins.{gacha_reward}

-- _RNG_SCALE
abbrev pub rng_scale : ℕ
rng_scale = 1000000000

-- `reward["type"].lower()`
pub data RewardType : Type 0 where
  coin_reward vip_quota_reward xp_reward other_reward : RewardType

pub record Reward : Type 0 where
  pub chance : ℕ
  pub kind : RewardType
  pub amount : ℕ

-- How the handler ends; `no_rewards` is a configuration that is missing or names none.
pub data Opening : Type 0 where
  cooling no_account no_lootbox no_rewards : Opening
  opened : Reward → Opening

-- The loop over the rewards: the first whose running total exceeds the draw.
unfoldable pub pick : (rand_val cumulative : ℕ) → List Reward → Option Reward
pick rand_val cumulative [] = none
pick rand_val cumulative (r ∷ rs) =
    let rest = pick rand_val (cumulative + r.chance) rs in
    if ltb rand_val (cumulative + r.chance) then some r else rest

-- `rewards[-1]`
abbrev pub last_of : Reward → List Reward → Reward
last_of r [] = r
last_of r (x ∷ xs) = last_of x xs

unfoldable pub select_reward : ℕ → Reward → List Reward → Reward
unfolding pick
select_reward rand_val r rs = elim (pick rand_val 0 (r ∷ rs)) [
  | none ↦ last_of r rs
  | some chosen ↦ chosen
]

unfoldable pub add_quota : ℕ → User → User
add_quota n u = record u { vip_quota = u.vip_quota + n }

unfoldable pub raise_xp : ℕ → ℕ → Db → Db
raise_xp tg_id n d = elim (add_xp_to_user tg_id n d) [ none ↦ d | some (d', up) ↦ d' ]

unfoldable pub grant : Option Event → ℕ → RewardType → ℕ → Db → Db
unfolding add_quota
grant event tg_id coin_reward n d =
    (process_coin_transaction event tg_id (pos n) gacha_reward false none d).0
grant event tg_id vip_quota_reward n d = write_user tg_id (add_quota n) d
grant event tg_id xp_reward n d = raise_xp tg_id n d
grant event tg_id other_reward n d = d

unfoldable pub take_lootbox : User → User
take_lootbox u = record u { lootbox_count = u.lootbox_count - 1 }

-- `cooling` is whether the cooldown key was there; a Redis that fails lets the user pass.
unfoldable pub open_lootbox :
    (is_cooling : Bool)
    → Option Event
    → (rewards : List Reward) (rand_val tg_id : ℕ) → Db
    → Db × Opening
unfolding take_lootbox select_reward grant
open_lootbox true event rewards rand_val tg_id d = (d, cooling)
open_lootbox false event rewards rand_val tg_id d = elim (get_user_by_tg_id tg_id d) [
  | none ↦ (d, no_account)
  | some u ↦
      if ltb 0 u.lootbox_count
      then (let taken = write_user tg_id take_lootbox d in
          elim rewards [
            | [] ↦ (taken, no_rewards)
            | r ∷ rs ↦
                let reward = select_reward rand_val r rs in
                (grant event tg_id reward.kind reward.amount taken, opened reward)
          ])
      else (d, no_lootbox)
]
