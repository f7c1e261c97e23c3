-- ===== src/Handlers/Gacha/Rates.antt =====
-- The drop rates of the loot boxes (bot/handlers/gacha.py).
use telegram_bot_new_version.Handlers.Gacha.{Reward, pick, last_of, select_reward}
use telegram_bot_new_version.Prelude.{
  ℕ, ◌+◌, ◌≤◌, ◌<◌, ◌≡◌, refl, none, some, List, [], ◌∷◌, ◌++◌, arith, ap, ◌∙◌,
}

unfoldable pub total_chance : List Reward → ℕ
total_chance [] = 0
total_chance (r ∷ rs) = r.chance + total_chance rs

pick-append :
    (rand_val c : ℕ) (before : List Reward) (r : Reward) (after : List Reward)
    → c + total_chance before ≤ rand_val
    → rand_val < c + total_chance before + r.chance
    → pick rand_val c (before ++ r ∷ after) ≡ some r
unfolding pick total_chance
pick-append rand_val c [] r after low high = ground arith
pick-append rand_val c (b ∷ before) r after low high =
    ground (arith, pick-append rand_val (c + b.chance) before r after)

pick-none :
    (rand_val c : ℕ) (rs : List Reward) → c + total_chance rs ≤ rand_val → pick rand_val c rs ≡ none
unfolding pick total_chance
pick-none rand_val c [] low = refl
pick-none rand_val c (r ∷ rs) low = ground (arith, pick-none rand_val (c + r.chance) rs)

-- A reward drops for the draws of an interval as long as its chance, the intervals in the order of the
-- configuration; draws past all of them give the last reward.
pub drop_rate :
    (rand_val : ℕ) (first : Reward) (rest before : List Reward) (r : Reward) (after : List Reward)
    → first ∷ rest ≡ before ++ r ∷ after
    → total_chance before ≤ rand_val
    → rand_val < total_chance before + r.chance
    → select_reward rand_val first rest ≡ r
unfolding select_reward
drop_rate rand_val first rest before r after split low high =
    let found = pick-append rand_val 0 before r after (omega arith) (omega arith) in
    let same = ap (pick rand_val 0) split ∙ found in rw (same, select_reward) refl

pub drop_last :
    (rand_val : ℕ) (first : Reward) (rest : List Reward)
    → total_chance (first ∷ rest) ≤ rand_val
    → select_reward rand_val first rest ≡ last_of first rest
unfolding select_reward
drop_last rand_val first rest low =
    rw (pick-none rand_val 0 (first ∷ rest) (omega arith), select_reward) refl
