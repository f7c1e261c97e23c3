-- ===== src/Level.antt =====
-- `add_xp_to_user` of database/queries/crud.py. Its one caller, the loot box of bot/handlers/gacha.py,
-- passes the amount of a reward, which is not negative.
pub mod Bounds
use telegram_bot_new_version.Prelude.{
  ℕ, zero, suc, ◌+◌, ◌-◌, ◌*◌, Bool, true, false, Option, none, some, leb, ltb, if◌then◌else◌,
}
use telegram_bot_new_version.Models.{Db}
use telegram_bot_new_version.Models.Users.{User}
use telegram_bot_new_version.Session.{get_user_by_tg_id, write_user}

-- The columns that the loop turns over.
pub record Progress : Type 0 where
  pub level : ℕ
  pub xp_points : ℕ
  pub lootbox_count : ℕ
  pub leveled_up : Bool

-- One round of the loop's body, past its test.
pub level_up : Progress → Progress
level_up p = record {
  level = p.level + 1;
  xp_points = p.xp_points - p.level * 100;
  lootbox_count = p.lootbox_count + 1;
  leveled_up = true;
}

-- `while True`, on fuel: `none` means that the fuel ran out.
pub level_loop : ℕ → Progress → Option Progress
level_loop zero p = none
level_loop (suc fuel) p =
    let rest = level_loop fuel (level_up p) in
    if leb (p.level * 100) p.xp_points then rest else some p

-- `if user.level < 1: user.level = 1`, and the new points.
unfoldable pub start_progress : ℕ → User → Progress
start_progress amount u = record {
  level = if ltb u.level 1 then 1 else u.level;
  xp_points = u.xp_points + amount;
  lootbox_count = u.lootbox_count;
  leveled_up = false;
}

unfoldable pub set_progress : Progress → User → User
set_progress p u = record u {
  level = p.level;
  xp_points = p.xp_points;
  lootbox_count = p.lootbox_count;
}

-- A round takes at least 100 points, so as many rounds as there are points, and the one that ends the
-- loop, are enough (`Bounds` proves it).
pub add_xp_to_user : ℕ → ℕ → Db → Option (Db × Bool)
unfolding level_loop level_up start_progress set_progress
add_xp_to_user tg_id amount d = elim (get_user_by_tg_id tg_id d) [
  | none ↦ some (d, false)
  | some u ↦ elim (level_loop (u.xp_points + amount + 1) (start_progress amount u)) [
    | none ↦ none
    | some p ↦ some (write_user tg_id (set_progress p) d, p.leveled_up)
  ]
]
