-- ===== src/Handlers/Beginning/Once.antt =====
-- A user is in one match at a time (bot/handlers/matching.py).
use telegram_bot_new_version.Models.{Db}
use telegram_bot_new_version.Matches.{takes_part}
use telegram_bot_new_version.Prelude.{count_if, ℕ, ◌≤◌}

-- No user takes part in two active matches.
abbrev pub AreSingle : Db → Type 0
AreSingle d = (j : ℕ) → count_if (takes_part j) d.matches ≤ 1
