-- ===== src/Workers/Zombies/Cleaned.antt =====
-- Whose state the cleaner takes away (services/scheduler.py).
use telegram_bot_new_version.Models.{Db}
use telegram_bot_new_version.Workers.Zombies.{is_zombie}
use telegram_bot_new_version.Matching.Queue.{UserState}
use telegram_bot_new_version.Prelude.{◌==◌, ℕ, ◌≡◌, ◌⊎◌, Bool, false, ◌&&◌, ◌||◌, List, [], ◌∷◌}

has_zombie : Db → ℕ → List UserState → Bool
has_zombie d j [] = false
has_zombie d j (u ∷ us) = (u.tg_id == j && is_zombie d u) || has_zombie d j us

-- A user has one state: every entry of the user is this one.
abbrev pub IsSole : ℕ → UserState → List UserState → Type 0
IsSole j v [] = Unit
IsSole j v (u ∷ us) = (((u.tg_id == j) ≡ false) ⊎ (u ≡ v)) × IsSole j v us
