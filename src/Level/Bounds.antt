-- ===== src/Level/Bounds.antt =====
-- The level loop ends, and where it ends.
use telegram_bot_new_version.Level.{
  Progress, level_loop, level_up, start_progress, set_progress, add_xp_to_user,
}
use telegram_bot_new_version.Prelude.{
  leb, Bool-cases, ℕ, zero, suc, ◌+◌, ◌*◌, ◌≤◌, ◌<◌, ◌≡◌, inl, inr, some, arith, ltb, refl, ◌||◌,
}
use telegram_bot_new_version.Models.{Db}
use telegram_bot_new_version.Session.{get_user_by_tg_id, write_user}
use telegram_bot_new_version.Models.Users.{User}

-- The points that the levels from `l` on cost, for `n` of them.
pub cost : ℕ → ℕ → ℕ
cost l zero = 0
cost l (suc n) = l * 100 + cost (l + 1) n

-- What a finished loop has reached: `n` levels more, each paid for and each with its loot box, and too
-- few points left for another.
pub record Reached (p q : Progress) (n : ℕ) : Type 0 where
  pub levels : q.level ≡ p.level + n
  pub boxes : q.lootbox_count ≡ p.lootbox_count + n
  pub paid : p.xp_points ≡ q.xp_points + cost p.level n
  pub left : q.xp_points < q.level * 100
  pub raised : q.leveled_up ≡ (p.leveled_up || ltb 0 n)

Reached-step :
    (p q : Progress) (n : ℕ)
    → p.level * 100 ≤ p.xp_points
    → Reached (level_up p) q n
    → Reached p q (suc n)
unfolding level_up cost
Reached-step p q n h r = ground arith

Reached-here : (p : Progress) → p.xp_points < p.level * 100 → Reached p p 0
unfolding cost
Reached-here p h = ground arith

level_loop-Reached :
    (fuel : ℕ) (p : Progress)
    → 1 ≤ p.level
    → p.xp_points < fuel
    → (q : Progress) × (level_loop fuel p ≡ some q) × (n : ℕ) × Reached p q n
unfolding level_loop
level_loop-Reached zero p h enough = absurd (omega arith)
level_loop-Reached (suc fuel) p h enough = elim (Bool-cases (leb (p.level * 100) p.xp_points)) [
  | inl more ↦
      let (q, e, n, r) =
        level_loop-Reached fuel (level_up p) (unfold level_up in omega arith)
          (unfold level_up in ground arith) in
      (q, rw more e, suc n, Reached-step p q n (ground arith) r)
  | inr done ↦ (p, rw done refl, 0, Reached-here p (ground arith))
]

-- For a known user the loop ends with the fuel given: the answer tells whether a level was gained, and
-- the row has gained `n` levels and `n` loot boxes, has paid 100 points for each level it left behind
-- times that level, and keeps too few points for the next. No other user changes.
pub add_xp_to_user-Reached :
    (tg_id amount : ℕ) (d : Db) (u : User)
    → get_user_by_tg_id tg_id d ≡ some u
    → (q : Progress) × (add_xp_to_user tg_id amount d
        ≡ some (write_user tg_id (set_progress q) d, q.leveled_up))
      × (n : ℕ) × Reached (start_progress amount u) q n
unfolding add_xp_to_user
add_xp_to_user-Reached tg_id amount d u e =
    let (q, found, n, r) =
      level_loop-Reached (u.xp_points + amount + 1) (start_progress amount u)
        (unfold start_progress in ground arith) (unfold start_progress in omega arith) in
    (q, ground (arith, e, found), n, r)
