-- ===== src/Handlers/Questionnaire/Score.antt =====
-- The compatibility of two partners' answers (bot/handlers/questionnaire.py).
use telegram_bot_new_version.Handlers.Questionnaire.{Choice, choice_no, Answer, has_id}
use telegram_bot_new_version.Prelude.{
  ltb, ◌==◌, if◌then◌else◌, ℕ, ◌+◌, ◌*◌, ◌/◌, ◌%◌, Bool, true, false, List, [], ◌∷◌,
}

-- `per_question[question_id]`, in the order of the answers.
unfoldable pub options_of : ℕ → List Answer → List Choice
options_of id [] = []
options_of id (a ∷ answers) =
    if a.question_id == id then a.selected_option ∷ options_of id answers else options_of id answers

-- The keys of `per_question`: the question of each answer that has none of its question after it.
unfoldable pub question_ids : List Answer → List ℕ
question_ids [] = []
question_ids (a ∷ answers) =
    let ids = question_ids answers in if has_id a.question_id ids then ids else a.question_id ∷ ids

abbrev pub is_pair : List Choice → Bool
is_pair (c ∷ d ∷ []) = true
is_pair _ = false

abbrev pub is_match : List Choice → Bool
is_match (c ∷ d ∷ []) = choice_no c == choice_no d
is_match _ = false

unfoldable pub compared_count : List Answer → List ℕ → ℕ
unfolding options_of
compared_count answers [] = 0
compared_count answers (id ∷ ids) =
    (if is_pair (options_of id answers) then 1 else 0) + compared_count answers ids

unfoldable pub identical_count : List Answer → List ℕ → ℕ
unfolding options_of
identical_count answers [] = 0
identical_count answers (id ∷ ids) =
    (if is_match (options_of id answers) then 1 else 0) + identical_count answers ids

-- `round(n / d)` for a positive d: to the nearest, and from the middle to the even one.
unfoldable pub round_div : ℕ → ℕ → ℕ
round_div n d =
    let floor = n / d in
    let twice = 2 * (n % d) in
    if ltb twice d
    then floor
    else if ltb d twice
    then floor + 1
    else if floor % 2 == 0
    then floor
    else floor + 1

unfoldable pub compatibility : List Answer → ℕ
unfolding question_ids compared_count identical_count round_div
compatibility answers =
    let compared = compared_count answers (question_ids answers) in
    let identical = identical_count answers (question_ids answers) in
    if compared == 0 then 50 else round_div (identical * 100) compared
