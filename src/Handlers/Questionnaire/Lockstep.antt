-- ===== src/Handlers/Questionnaire/Lockstep.antt =====
-- The two partners of a questionnaire go through it together (bot/handlers/questionnaire.py).
use telegram_bot_new_version.Handlers.Questionnaire.{
  waiting_for_questions_to_start, anonymous_chat_active, answering_questions,
  waiting_for_partner_answer, waiting_for_approval, no_phase, Phase, Dialogue, Choice, Quiz, Turn,
  Note,
}
use telegram_bot_new_version.Handlers.Questionnaire.Register.{on_answer}
use telegram_bot_new_version.Prelude.{ℕ, ◌≡◌, true, List, false, if◌then◌else◌, Bool}

-- Where a dialogue stands: in the questions, at the approval, or outside.
abbrev pub stage : Phase → ℕ
stage answering_questions = 0
stage waiting_for_partner_answer = 0
stage waiting_for_approval = 1
stage no_phase = 2
stage waiting_for_questions_to_start = 3
stage anonymous_chat_active = 4

-- Both are at the same question of the same match, and at the same stage.
abbrev pub Alike : Dialogue → Dialogue → Type 0
Alike d e = (d.index ≡ e.index) × (d.in_match ≡ e.in_match) × (stage d.phase ≡ stage e.phase)

abbrev pub InStep : Quiz → Type 0
InStep q = Alike (q.dialogue q.user_one_id) (q.dialogue q.user_two_id)

-- Any answers, of any users to any questions, whatever fails meanwhile.
pub data Playing (q : Quiz) : Quiz → Type 0 where
  start : Playing q q
  answered :
      {r : Quiz} (t : Turn) (uid question_id : ℕ) (c : Choice)
      → Playing q r
      → Playing q (on_answer t uid question_id c r).0

pick : (b : Bool) (x y : Quiz × List Note) → InStep x.0 → InStep y.0 → InStep (if b then x else y).0
pick true x y h k = h
pick false x y h k = k
