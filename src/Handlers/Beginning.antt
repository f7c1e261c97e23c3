-- ===== src/Handlers/Beginning.antt =====
-- The start of a match: `handle_successful_match` and `_abort_match_initialisation` of
-- bot/handlers/matching.py. A call is two steps, before and after its wait of five seconds; the commits
-- succeed. The timer, the other keys of Redis and the texts are left out.
pub mod Once
pub mod Date
use telegram_bot_new_version.Handlers.Transfer.Atomic.{between}
use telegram_bot_new_version.Models.{Db}
use telegram_bot_new_version.Matches.{create_match_history, get_active_match, end_row}
use telegram_bot_new_version.Handlers.Questionnaire.{
  Phase, Dialogue, ended_dialogue, anonymous_chat_active, waiting_for_questions_to_start,
  answering_questions,
}
use telegram_bot_new_version.Prelude.{
  ◌==◌, if◌then◌else◌, is_some, count_if, ℕ, Bool, true, false, ◌&&◌, ◌||◌, List, [], ◌∷◌,
}
use telegram_bot_new_version.Prelude.Table.{update_by, at}

-- What the surroundings give: the random questions, the clock, and whose messages arrive.
pub record Setting : Type 0 where
  pub now : ℕ
  pub pool : List ℕ
  pub is_reached : ℕ → Bool

-- `many_blocks` is the MultipleResultsFound of `scalar_one_or_none` where each has blocked the other.
pub data Begun : Type 0 where
  duplicate blocked many_blocks no_questions not_delivered : Begun
  chat_begun date_begun : ℕ → Begun

abbrev pub Dialogues : Type 0
Dialogues = ℕ → Dialogue

abbrev pub both_at : Dialogue → ℕ → ℕ → Dialogues → Dialogues
both_at d one two ds = at two d (at one d ds)

-- `match_history.is_active = False`, on the row that was just made.
unfoldable pub drop_match : (now id : ℕ) → Db → Db
drop_match now id d = record d { matches = update_by (λ m. m.id == id) (end_row now) d.matches }

-- The dialogue of a chat, and of a date before its first question. What `update_data` leaves alone stays.
abbrev pub enter : Phase → ℕ → Dialogues → Dialogues
enter p uid ds = at uid (record (ds uid) { phase = p; in_match = true }) ds

unfoldable pub begin_chat : Setting → (one two id : ℕ) → Db → Dialogues → Db × Dialogues × Begun
unfolding drop_match
begin_chat s one two id d ds =
    let inside = enter anonymous_chat_active two (enter anonymous_chat_active one ds) in
    if s.is_reached one && s.is_reached two
    then (d, inside, chat_begun id)
    else (drop_match s.now id d, both_at ended_dialogue one two inside, not_delivered)

abbrev pub has_none : List ℕ → Bool
has_none [] = true
has_none (x ∷ xs) = false

unfoldable pub begin_date : Setting → (one two id : ℕ) → Db → Dialogues → Db × Dialogues × Begun
unfolding drop_match
begin_date s one two id d ds =
    if has_none s.pool
    then (drop_match s.now id d, both_at ended_dialogue one two ds, no_questions)
    else if s.is_reached one && s.is_reached two
    then (
      d,
      enter waiting_for_questions_to_start two (enter waiting_for_questions_to_start one ds),
      date_begun id,
    )
    else (drop_match s.now id d, both_at ended_dialogue one two ds, not_delivered)

-- Up to the wait.
unfoldable pub handle_successful_match :
    Setting → (one two : ℕ) (is_chat : Bool) → Db → Dialogues → Db × Dialogues × Begun
unfolding begin_chat begin_date
handle_successful_match s one two is_chat d ds =
    if is_some (get_active_match one d) || is_some (get_active_match two d)
    then (d, ds, duplicate)
    else let rows = count_if (between one two) d.blocks in
      if rows == 0
      then (let created = create_match_history one two d in
          if is_chat
          then begin_chat s one two d.next_id created ds
          else begin_date s one two d.next_id created ds)
      else if rows == 1
      then (d, ds, blocked)
      else (d, ds, many_blocks)

abbrev pub starts : Phase → Bool
starts waiting_for_questions_to_start = true
starts _ = false

-- After the wait: the first question, or out, for those who still wait for it.
unfoldable pub after_countdown : (is_active : Bool) (one two : ℕ) → Dialogues → Dialogues
after_countdown is_active one two ds =
    if is_active
    then (let first = at one (record (ds one) { phase = answering_questions; index = 0 }) ds in
        at two (record (first two) { phase = answering_questions; index = 0 }) first)
    else (let first = if starts (ds one).phase then at one ended_dialogue ds else ds in
        if starts (first two).phase then at two ended_dialogue first else first)
