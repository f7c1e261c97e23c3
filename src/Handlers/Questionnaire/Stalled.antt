-- ===== src/Handlers/Questionnaire/Stalled.antt =====
-- An answer that is stored and not counted (bot/handlers/questionnaire.py).
use telegram_bot_new_version.Handlers.Questionnaire.{Choice, Quiz, Turn, Note, answering_questions}
use telegram_bot_new_version.Handlers.Questionnaire.Register.{is_answer, on_answer, breaks_before}
use telegram_bot_new_version.Prelude.{
  is_some, ℕ, ◌≡◌, true, List, [], ◌∷◌, ◌++◌, Bool, not, ◌&&◌, ◌||◌,
}
use telegram_bot_new_version.Prelude.Table.{find_by}

-- Further attempts at one question by one user.
unfoldable pub try_again : (uid question_id : ℕ) → List (Turn × Choice) → Quiz → Quiz × List Note
try_again uid question_id [] q = (q, [])
try_again uid question_id ((t, c) ∷ more) q =
    let (q', told) = on_answer t uid question_id c q in
    let (r, later) = try_again uid question_id more q' in (r, told ++ later)

-- The user may answer, the answer is there, and the partner has not gone on.
abbrev pub IsStuck : ℕ → ℕ → Quiz → Type 0
IsStuck uid question_id q =
    ((q.dialogue uid).phase ≡ answering_questions)
    × (is_some (find_by (is_answer uid question_id) q.answers) ≡ true)

-- Whether the call breaks between the commit of the answer and the sync key.
abbrev pub breaks_off : Turn → Bool
breaks_off t = not t.insert_fails && (t.activity_fails || breaks_before t.sync)
