-- ===== src/Tests/Beginning.antt =====
-- The start of a match (bot/handlers/matching.py).
use telegram_bot_new_version.Handlers.Questionnaire.{ended_dialogue, choice_a, choice_b}
use telegram_bot_new_version.Handlers.Beginning.{Setting, Dialogues}
use telegram_bot_new_version.Handlers.Questionnaire.Completed.{Play}
use telegram_bot_new_version.Prelude.{◌==◌, ℕ, true, List, [], ◌∷◌}

abbrev rest_of_pool : List ℕ
rest_of_pool =
    102 ∷ 103 ∷ 104 ∷ 105 ∷ 106 ∷ 107 ∷ 108 ∷ 109 ∷ 110 ∷ 111 ∷ 112 ∷ 113 ∷ 114 ∷ 115 ∷ 116 ∷ 117
    ∷ 118 ∷ 119 ∷ 120 ∷ []

abbrev setting : Setting
setting = record { now = 1000; pool = 101 ∷ rest_of_pool; is_reached = λ uid. true }

-- Nobody is in a match.
abbrev outside : Dialogues
outside uid = ended_dialogue

abbrev rounds : ℕ → Play
rounds id = record { one_first = id == 101; one_choice = choice_a; two_choice = choice_b }
