-- ===== src/Handlers/Gacha/Opened.antt =====
-- What opening a loot box costs and brings (bot/handlers/gacha.py).
use telegram_bot_new_version.Models.{Db}
use telegram_bot_new_version.Session.{get_user_by_tg_id, write_user}
use telegram_bot_new_version.Level.{start_progress, set_progress, add_xp_to_user, Progress}
use telegram_bot_new_version.Economy.Coins.{
  Event, credit, apply_event, deposit, process_coin_transaction,
}
use telegram_bot_new_version.Models.Users.{User}
use telegram_bot_new_version.Level.Bounds.{add_xp_to_user-Reached}
use telegram_bot_new_version.Session.Ledger.{get_user-write_user, IsAudited, write_user-IsAudited}
use telegram_bot_new_version.Prelude.Int.{pos}
use telegram_bot_new_version.Models.Coins.{gacha_reward}
use telegram_bot_new_version.Handlers.Gacha.{
  RewardType, coin_reward, vip_quota_reward, xp_reward, other_reward, Reward, grant, pos,
  gacha_reward, add_quota, open_lootbox, take_lootbox, List, [], no_rewards, select_reward,
  raise_xp, opened,
}
use telegram_bot_new_version.Prelude.{
  ◌∷◌, [], if◌then◌else◌, ℕ, ◌+◌, ◌≤◌, ◌≡◌, refl, Bool, false, Option, none, some, arith,
  Option-cases, inl, inr, ◌==◌, ◌-◌, true,
}
use telegram_bot_new_version.Economy.Audit.{IsFair, process-IsAudited}

-- A row of a user with `n` levels and as many boxes more.
abbrev Gains : ℕ → Db → User → Type 0
Gains k d u =
    (v : User) × (n : ℕ) × (get_user_by_tg_id k d ≡ some v)
    × (v.lootbox_count ≡ u.lootbox_count + n)
    × (v.level ≡ u.level + n)

deposit-Gains :
    (event : Option Event) (k n : ℕ) (d : Db) (u : User)
    → get_user_by_tg_id k d ≡ some u
    → Gains k (process_coin_transaction event k (pos n) gacha_reward false none d).0 u
unfolding process_coin_transaction deposit credit
deposit-Gains event k n d u e =
    let final = (apply_event event false (pos n) gacha_reward).0 in
    (
      credit final u,
      0,
      ground (arith, get_user-write_user k (credit final) d (λ v. refl) k),
      omega arith,
      omega arith,
    )

-- `raise_xp` at a known user is the write of what the level loop reaches.
raise_xp-eq :
    (k n : ℕ) (d : Db) (q : Progress)
    → add_xp_to_user k n d ≡ some (write_user k (set_progress q) d, q.leveled_up)
    → raise_xp k n d ≡ write_user k (set_progress q) d
unfolding raise_xp
raise_xp-eq k n d q e = rw (e, raise_xp) refl

xp-Gains :
    (k amount : ℕ) (d : Db) (u : User)
    → get_user_by_tg_id k d ≡ some u
    → 1 ≤ u.level
    → Gains k (raise_xp k amount d) u
unfolding start_progress set_progress
xp-Gains k amount d u e leveled =
    let (q, found, n, r) = add_xp_to_user-Reached k amount d u e in
    (
      set_progress q u,
      n,
      rw (raise_xp-eq k amount d q found, get_user-write_user k (set_progress q) d (λ v. refl) k, e)
          (ground arith),
      ground (arith, r.boxes),
      ground (arith, r.levels),
    )

grant-Gains :
    (event : Option Event) (k : ℕ) (kind : RewardType) (n : ℕ) (d : Db) (u : User)
    → get_user_by_tg_id k d ≡ some u
    → 1 ≤ u.level
    → Gains k (grant event k kind n d) u
unfolding grant add_quota
grant-Gains event k coin_reward n d u e leveled = deposit-Gains event k n d u e
grant-Gains event k vip_quota_reward n d u e leveled = (
  add_quota n u,
  0,
  ground (arith, get_user-write_user k (add_quota n) d (λ v. refl) k),
  omega arith,
  omega arith,
)
grant-Gains event k xp_reward n d u e leveled = xp-Gains k n d u e leveled
grant-Gains event k other_reward n d u e leveled = (u, 0, e, omega arith, omega arith)

-- A user who has boxes left, with a configuration of at least one reward, opens one box: it is gone,
-- and the boxes that come are one for each level gained.
pub lootbox_spent :
    (event : Option Event) (r : Reward) (rs : List Reward) (rand_val k : ℕ) (d : Db) (u : User)
    → get_user_by_tg_id k d ≡ some u
    → 1 ≤ u.lootbox_count
    → 1 ≤ u.level
    → let (d', answer) = open_lootbox false event (r ∷ rs) rand_val k d in
      (answer ≡ opened (select_reward rand_val r rs))
      × (v : User) × (n : ℕ) × (get_user_by_tg_id k d' ≡ some v)
      × (v.lootbox_count + 1 ≡ u.lootbox_count + n)
      × (v.level ≡ u.level + n)
unfolding open_lootbox take_lootbox
lootbox_spent event r rs rand_val k d u e boxes leveled =
    let reward = select_reward rand_val r rs in
    let taken = write_user k take_lootbox d in
    let taker : get_user_by_tg_id k taken ≡ some (take_lootbox u) =
      ground (arith, get_user-write_user k take_lootbox d (λ v. refl) k) in
    let (v, n, found, gained, raised) =
      grant-Gains event k reward.kind reward.amount taken (take_lootbox u) taker leveled in
    (ground arith, v, n, ground arith, ground arith, ground arith)

-- A user who has boxes left, where the configuration is missing or names no reward, loses a box and
-- gets nothing; no other user changes, and nothing is logged.
pub lootbox_lost :
    (event : Option Event) (rand_val k : ℕ) (d : Db) (u : User) (j : ℕ)
    → get_user_by_tg_id k d ≡ some u
    → 1 ≤ u.lootbox_count
    → let (d', answer) = open_lootbox false event [] rand_val k d in
      (answer ≡ no_rewards)
      × (get_user_by_tg_id j d' ≡ (
          if k == j
          then some (record u { lootbox_count = u.lootbox_count - 1 })
          else get_user_by_tg_id j d))
      × (d'.coin_transactions ≡ d.coin_transactions)
unfolding open_lootbox take_lootbox
lootbox_lost event rand_val k d u j e boxes =
    ground (arith, e, get_user-write_user k take_lootbox d (λ v. refl) j)

grant-IsAudited :
    (event : Option Event) (k : ℕ) (kind : RewardType) (n : ℕ) (d : Db) (j : ℕ) (u : User)
    → get_user_by_tg_id k d ≡ some u
    → IsFair event
    → IsAudited j d
    → IsAudited j (grant event k kind n d)
unfolding grant add_quota set_progress
grant-IsAudited event k coin_reward n d j u e fair h =
    process-IsAudited k none d j h event (pos n) gacha_reward false (rw e (λ x. cc)) fair
grant-IsAudited event k vip_quota_reward n d j u e fair h =
    write_user-IsAudited k (add_quota n) d (λ v. refl) j (λ v. refl) h
grant-IsAudited event k xp_reward n d j u e fair h =
    let (q, found, m, reached) = add_xp_to_user-Reached k n d u e in
    rw (raise_xp-eq k n d q found)
      (write_user-IsAudited k (set_progress q) d (λ v. refl) j (λ v. refl) h)
grant-IsAudited event k other_reward n d j u e fair h = h

-- Opening a loot box, whatever the configuration and the draw, keeps what the coin log explains, under
-- an event that makes no deposit negative.
pub open_lootbox-IsAudited :
    (is_cooling : Bool) (event : Option Event) (rewards : List Reward) (rand_val k : ℕ) (d : Db)
    → (j : ℕ) → IsFair event
    → IsAudited j d
    → IsAudited j (open_lootbox is_cooling event rewards rand_val k d).0
unfolding open_lootbox take_lootbox
open_lootbox-IsAudited true event rewards rand_val k d j fair h = h
open_lootbox-IsAudited false event [] rand_val k d j fair h =
    elim (Option-cases (get_user_by_tg_id k d)) [
      | inl e ↦ ground arith
      | inr (u, e) ↦
          ground (arith, write_user-IsAudited k take_lootbox d (λ v. refl) j (λ v. refl) h)
    ]
open_lootbox-IsAudited false event (r ∷ rs) rand_val k d j fair h =
    elim (Option-cases (get_user_by_tg_id k d)) [
      | inl e ↦ ground arith
      | inr (u, e) ↦
          let reward = select_reward rand_val r rs in
          let taken = write_user k take_lootbox d in
          let taker : get_user_by_tg_id k taken ≡ some (take_lootbox u) =
            ground (arith, get_user-write_user k take_lootbox d (λ v. refl) k) in
          ground (
            arith,
            grant-IsAudited event k reward.kind reward.amount taken j (take_lootbox u) taker fair
                (write_user-IsAudited k take_lootbox d (λ v. refl) j (λ v. refl) h),
          )
    ]
