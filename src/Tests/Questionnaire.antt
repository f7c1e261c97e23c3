-- ===== src/Tests/Questionnaire.antt =====
-- The questionnaire and the consent (bot/handlers/questionnaire.py, bot/handlers/anonymous_chat.py).
use telegram_bot_new_version.Handlers.Questionnaire.{
  Answer, Quiz, Turn, choice_a, add_fails, choice_b,
}
use telegram_bot_new_version.Handlers.Consent.{
  Consent, Commits, enter_chat, activate_chat, approve_chat, register_chat_consent, awaits_approval,
  approve_chat_yes,
}
use telegram_bot_new_version.Handlers.Consent.Opened.{Voting, said_yes, opened_by_both}
use telegram_bot_new_version.Handlers.Questionnaire.Completed.{Play}
use telegram_bot_new_version.Handlers.Questionnaire.Score.{
  question_ids, compared_count, identical_count, compatibility,
}
use telegram_bot_new_version.Handlers.Questionnaire.Rounds.{calm, asked}
use telegram_bot_new_version.Handlers.Questionnaire.Percent.{compatibility_bounds}
use telegram_bot_new_version.Prelude.{
  ◌==◌, ℕ, ◌≤◌, ◌≡◌, refl, inl, inr, true, false, some, List, [], ◌∷◌,
}

abbrev twenty : List ℕ
twenty =
    101 ∷ 102 ∷ 103 ∷ 104 ∷ 105 ∷ 106 ∷ 107 ∷ 108 ∷ 109 ∷ 110 ∷ 111 ∷ 112 ∷ 113 ∷ 114 ∷ 115 ∷ 116
    ∷ 117 ∷ 118 ∷ 119 ∷ 120 ∷ []

-- The last question of twenty, with nobody's answer to it.
abbrev last_question : Quiz
last_question = record {
  user_one_id = 1;
  user_two_id = 2;
  is_stored = true;
  is_active = true;
  questionnaire_completed = false;
  answers = [];
  members = [];
  pool = some twenty;
  questions = 119 ∷ 120 ∷ [];
  dialogue = λ uid. asked 18;
}

abbrev plays : ℕ → Play
plays id = record { one_first = id == 119; one_choice = choice_a; two_choice = choice_b }

-- The sync key cannot be written.
abbrev no_sync : Turn
no_sync = record calm { sync = add_fails }

abbrev three_answers : List Answer
three_answers =
    record { user_id = 1; question_id = 119; selected_option = choice_a }
    ∷ record { user_id = 2; question_id = 119; selected_option = choice_a }
    ∷ record { user_id = 1; question_id = 120; selected_option = choice_b }
    ∷ []

compatibility_bounds_example :
    let ids = question_ids three_answers in
    (compatibility three_answers ≤ 100)
    × (identical_count three_answers ids ≤ compared_count three_answers ids)
compatibility_bounds_example = compatibility_bounds three_answers

abbrev no_failure : Commits
no_failure = record { vote_fails = false; activation_fails = false }

abbrev undecided : Consent
undecided = record {
  user_one_id = 1;
  user_two_id = 2;
  is_active = true;
  chat_approved = false;
  user_one_approved = false;
  user_two_approved = false;
  state = λ uid. awaits_approval;
  in_match = λ uid. true;
}

abbrev opened_chat : Consent
opened_chat =
    register_chat_consent no_failure 2 approve_chat_yes
      (register_chat_consent no_failure 1 approve_chat_yes undecided)

two_votes : Voting undecided opened_chat ((2, approve_chat_yes) ∷ (1, approve_chat_yes) ∷ [])
two_votes =
    Voting.voted no_failure 2 approve_chat_yes (inr refl)
      (Voting.voted no_failure 1 approve_chat_yes (inl refl) Voting.start)

opened_by_both_example :
    (said_yes undecided.user_one_id ((2, approve_chat_yes) ∷ (1, approve_chat_yes) ∷ []) ≡ true)
    × (said_yes undecided.user_two_id ((2, approve_chat_yes) ∷ (1, approve_chat_yes) ∷ []) ≡ true)
unfolding register_chat_consent approve_chat activate_chat enter_chat
opened_by_both_example = opened_by_both two_votes refl refl refl (λ j. refl) 1 refl
