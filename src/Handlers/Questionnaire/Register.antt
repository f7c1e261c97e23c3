-- ===== src/Handlers/Questionnaire/Register.antt =====
-- The handler of an answer and the end of a questionnaire (bot/handlers/questionnaire.py).
use telegram_bot_new_version.Handlers.Questionnaire.{
  Sync, count_fails, expire_fails, add_fails, total_questions, Phase, Choice, Answer, Member, Quiz,
  Turn, Note, set_phase, ended_dialogue, write_dialogue, note_if, is_sent, deliver_next_question,
  waiting_for_approval, answering_questions, waiting_for_partner_answer, add_fails, approval_prompt,
  stopped,
}
use telegram_bot_new_version.Handlers.Questionnaire.Score.{compatibility}
use telegram_bot_new_version.Prelude.{
  ltb, ◌==◌, if◌then◌else◌, is_some, count_if, ℕ, ◌+◌, Bool, true, false, not, ◌&&◌, ◌||◌, none,
  some, List, [], ◌∷◌, ◌++◌,
}
use telegram_bot_new_version.Prelude.Table.{find_by}

-- Both dialogues wait for approval, and each is asked; where a message fails, the match is ended, and
-- both dialogues with it.
unfoldable pub finalize : Turn → Quiz → Quiz × List Note
unfolding write_dialogue
finalize t q =
    let one = q.user_one_id in
    let two = q.user_two_id in
    let pct = compatibility q.answers in
    let q1 = write_dialogue one (set_phase waiting_for_approval (q.dialogue one)) q in
    let q2 = write_dialogue two (set_phase waiting_for_approval (q1.dialogue two)) q1 in
    let asked =
      note_if (t.delivery one) (approval_prompt one pct)
      ++ note_if (t.delivery two) (approval_prompt two pct) in
    if is_sent (t.delivery one) && is_sent (t.delivery two) then (q2, asked) else (
      write_dialogue two ended_dialogue
          (write_dialogue one ended_dialogue (record q2 { is_active = false })),
      asked
          ++ (if is_sent (t.delivery one) then stopped one ∷ [] else [])
          ++ (if is_sent (t.delivery two) then stopped two ∷ [] else []),
    )

abbrev pub is_answer : ℕ → ℕ → Answer → Bool
is_answer uid question_id a = if a.user_id == uid then a.question_id == question_id else false

-- The INSERT, and whether it raises: the table allows one answer of a user to a question of a match.
unfoldable pub save_user_answer : Turn → ℕ → ℕ → Choice → Quiz → Quiz × Bool
save_user_answer t uid question_id c q =
    if t.insert_fails || is_some (find_by (is_answer uid question_id) q.answers)
    then (q, false)
    else (
      record q {
        answers =
            record { user_id = uid; question_id = question_id; selected_option = c } ∷ q.answers;
      },
      true,
    )

abbrev pub is_member : ℕ → ℕ → Member → Bool
is_member question_id uid m = if m.question_id == question_id then m.user_id == uid else false

abbrev pub of_question : ℕ → Member → Bool
of_question question_id m = m.question_id == question_id

abbrev pub reset_phase : ℕ → Quiz → Quiz
reset_phase uid q = write_dialogue uid (set_phase answering_questions (q.dialogue uid)) q

-- From the next index on: the pool, the row of the match, the next question or the end.
unfoldable pub next_step : Turn → ℕ → Quiz → Quiz × List Note
unfolding finalize
next_step t next_q_index q = if t.pool_fails then (q, []) else elim q.pool [
  | none ↦ (q, [])
  | some q_ids ↦
      if not q.is_stored
      then (q, [])
      else if ltb next_q_index total_questions
      then deliver_next_question t next_q_index q_ids q
      else finalize t (record q { questionnaire_completed = true })
]

-- Whether SCARD or EXPIRE raises; EXPIRE is for the one who comes first.
abbrev pub breaks_after : Sync → (sync_count : ℕ) → Bool
breaks_after count_fails n = true
breaks_after expire_fails n = n == 1
breaks_after _ n = false

abbrev pub breaks_before : Sync → Bool
breaks_before add_fails = true
breaks_before _ = false

unfoldable pub join : (uid question_id : ℕ) → Quiz → Quiz
join uid question_id q = record q {
  members = record { question_id = question_id; user_id = uid } ∷ q.members;
}

-- The one who comes second goes on.
unfoldable pub sync_answer : Turn → (uid question_id index : ℕ) → Quiz → Quiz × List Note
unfolding next_step join
sync_answer t uid question_id index q =
    if breaks_before t.sync
    then (reset_phase uid q, [])
    else if is_some (find_by (is_member question_id uid) q.members)
    then (q, [])
    else let joined = join uid question_id q in
      let sync_count = count_if (of_question question_id) joined.members in
      if breaks_after t.sync sync_count
      then (reset_phase uid joined, [])
      else if sync_count == 2
      then next_step t (index + 1) joined
      else (joined, [])

unfoldable pub register_question_response :
    Turn → (uid question_id : ℕ) → Choice → Quiz → Quiz × List Note
unfolding save_user_answer sync_answer
register_question_response t uid question_id c q =
    let d = q.dialogue uid in
    if not d.in_match
    then (q, [])
    else let locked = write_dialogue uid (set_phase waiting_for_partner_answer d) q in
      let saved = save_user_answer t uid question_id c locked in
      if not saved.1 || t.activity_fails
      then (reset_phase uid saved.0, [])
      else sync_answer t uid question_id d.index saved.0

abbrev pub is_answering : Phase → Bool
is_answering answering_questions = true
is_answering _ = false

-- The two handlers of an answer by the state of the dialogue: one that waits is only told so.
unfoldable pub on_answer : Turn → (uid question_id : ℕ) → Choice → Quiz → Quiz × List Note
unfolding register_question_response
on_answer t uid question_id c q =
    if is_answering (q.dialogue uid).phase
    then register_question_response t uid question_id c q
    else (q, [])
