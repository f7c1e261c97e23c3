-- ===== src/Handlers/Questionnaire/Completed.antt =====
-- The questionnaire from question to question (bot/handlers/questionnaire.py).
use telegram_bot_new_version.Handlers.Questionnaire.{Choice, Quiz}
use telegram_bot_new_version.Handlers.Questionnaire.Register.{on_answer}
use telegram_bot_new_version.Handlers.Questionnaire.Rounds.{calm, waits}
use telegram_bot_new_version.Prelude.{if◌then◌else◌, ℕ, Bool, List, [], ◌∷◌}

-- How the two take one question: who is first, and what each chooses.
pub record Play : Type 0 where
  pub one_first : Bool
  pub one_choice : Choice
  pub two_choice : Choice

unfoldable pub play_round : Play → ℕ → Quiz → Quiz
play_round p id q =
    let one = q.user_one_id in
    let two = q.user_two_id in
    if p.one_first
    then (on_answer calm two id p.two_choice (on_answer calm one id p.one_choice q).0).0
    else (on_answer calm one id p.one_choice (on_answer calm two id p.two_choice q).0).0

unfoldable pub play_all : (ℕ → Play) → List ℕ → Quiz → Quiz
play_all plays [] q = q
play_all plays (id ∷ ids) q = play_all plays ids (play_round (plays id) id q)

unfoldable both_answered : Play → ℕ → Quiz → Quiz
both_answered p id q =
    if p.one_first
    then waits q.user_two_id id p.two_choice (waits q.user_one_id id p.one_choice q)
    else waits q.user_one_id id p.one_choice (waits q.user_two_id id p.two_choice q)
