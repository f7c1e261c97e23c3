-- ===== src/Handlers/Beginning/Date.antt =====
-- From the match to its questionnaire (bot/handlers/matching.py, bot/handlers/questionnaire.py).
use telegram_bot_new_version.Handlers.Questionnaire.{Quiz, has_id, waiting_for_approval}
use telegram_bot_new_version.Handlers.Beginning.{Dialogues}
use telegram_bot_new_version.Handlers.Questionnaire.Completed.{Play, play_all}
use telegram_bot_new_version.Prelude.{ℕ, ◌≡◌, true, false, some, List, [], ◌∷◌}

-- The questionnaire that a started match has.
abbrev pub quiz_of : (one two : ℕ) (pool questions : List ℕ) → Dialogues → Quiz
quiz_of one two pool questions ds = record {
  user_one_id = one;
  user_two_id = two;
  is_stored = true;
  is_active = true;
  questionnaire_completed = false;
  answers = [];
  members = [];
  pool = some pool;
  questions = questions;
  dialogue = ds;
}

-- Each question of the pool once, and all in the table.
abbrev pub AreDistinct : List ℕ → List ℕ → Type 0
AreDistinct [] questions = Unit
AreDistinct (id ∷ ids) questions =
    (has_id id questions ≡ true) × (has_id id ids ≡ false) × AreDistinct ids questions

-- The questions lead to the approval of both.
abbrev IsApproached : (ℕ → Play) → Quiz → List ℕ → Type 0
IsApproached plays q ids =
    let r = play_all plays ids q in
    (r.questionnaire_completed ≡ true)
    × ((r.dialogue r.user_one_id).phase ≡ waiting_for_approval)
    × ((r.dialogue r.user_two_id).phase ≡ waiting_for_approval)
