-- ===== src/Handlers/Questionnaire.antt =====
-- The questionnaire of a match: `register_question_response`, `_deliver_next_question` and
-- `finalize_questionnaire_and_request_approval` of bot/handlers/questionnaire.py, for one match. The
-- storage of the dialogues answers, and the commit of the finished questionnaire succeeds; what else
-- can fail in a call is in its `Turn`. The life of an hour of the sync keys is left out.
pub mod Score
pub mod Register
pub mod Lockstep
pub mod Stalled
pub mod Rounds
pub mod Completed
pub mod Percent
use telegram_bot_new_version.Prelude.{
  ◌==◌, if◌then◌else◌, ℕ, zero, suc, Bool, true, false, ◌||◌, Option, none, some, List, [], ◌∷◌,
  ◌++◌,
}
use telegram_bot_new_version.Prelude.Table.{at}

-- TOTAL_QUESTIONS
abbrev pub total_questions : ℕ
total_questions = 20

-- The state of a user's dialogue, as far as it belongs to a match.
pub data Phase : Type 0 where
  waiting_for_questions_to_start answering_questions waiting_for_partner_answer : Phase
  waiting_for_approval anonymous_chat_active no_phase : Phase

-- `match_history_id` is set or not, and `current_question_index` with its default.
pub record Dialogue : Type 0 where
  pub phase : Phase
  pub in_match : Bool
  pub index : ℕ

pub data Choice : Type 0 where
  choice_a choice_b choice_c choice_d : Choice

abbrev pub choice_no : Choice → ℕ
choice_no choice_a = 0
choice_no choice_b = 1
choice_no choice_c = 2
choice_no choice_d = 3

pub record Answer : Type 0 where
  pub user_id : ℕ
  pub question_id : ℕ
  pub selected_option : Choice

-- A member of the set `match:<id>:q:<question>:sync`.
pub record Member : Type 0 where
  pub question_id : ℕ
  pub user_id : ℕ

-- One match: its row, its answers, its keys in Redis, the ids of the table of questions, and the
-- dialogues of all users.
pub record Quiz : Type 0 where
  pub user_one_id : ℕ
  pub user_two_id : ℕ
  pub is_stored : Bool
  pub is_active : Bool
  pub questionnaire_completed : Bool
  pub answers : List Answer
  pub members : List Member
  pub pool : Option (List ℕ)
  pub questions : List ℕ
  pub dialogue : ℕ → Dialogue

-- What becomes of a message: it arrives, the user has blocked the bot, or another error.
pub data Delivery : Type 0 where
  sent forbidden undelivered : Delivery

-- What becomes of the commands SADD, SCARD and EXPIRE on the sync key.
pub data Sync : Type 0 where
  sync_works add_fails count_fails expire_fails : Sync

-- What can fail in one call: the INSERT of the answer for a reason of its own, the reset of the
-- scheduler's timer after its commit, the sync key, the read of the pool, the messages.
pub record Turn : Type 0 where
  pub insert_fails : Bool
  pub activity_fails : Bool
  pub sync : Sync
  pub pool_fails : Bool
  pub delivery : ℕ → Delivery

-- A message that arrives. The second one carries the compatibility.
pub data Note : Type 0 where
  question : (to question_id index : ℕ) → Note
  approval_prompt : (to compatibility_pct : ℕ) → Note
  stopped : (to : ℕ) → Note

abbrev pub set_phase : Phase → Dialogue → Dialogue
set_phase p d = record d { phase = p }

-- `set_state(None)` and `clear()`.
abbrev pub ended_dialogue : Dialogue
ended_dialogue = record { phase = no_phase; in_match = false; index = 0 }

unfoldable pub write_dialogue : ℕ → Dialogue → Quiz → Quiz
write_dialogue uid d q = record q { dialogue = at uid d q.dialogue }

abbrev pub note_if : Delivery → Note → List Note
note_if sent n = n ∷ []
note_if _ n = []

-- The pool's entry at an index, or none past its end.
unfoldable pub get_elem? : List ℕ → ℕ → Option ℕ
get_elem? [] i = none
get_elem? (x ∷ xs) zero = some x
get_elem? (x ∷ xs) (suc i) = get_elem? xs i

abbrev pub has_id : ℕ → List ℕ → Bool
has_id id [] = false
has_id id (x ∷ xs) = x == id || has_id id xs

-- Both dialogues end, and the partner of one who has blocked the bot is told.
unfoldable pub dissolve : Turn → (uid partner_id : ℕ) → Quiz → Quiz × List Note
unfolding write_dialogue
dissolve t uid partner_id q = (
  write_dialogue partner_id ended_dialogue
      (write_dialogue uid ended_dialogue (record q { is_active = false })),
  note_if (t.delivery partner_id) (stopped partner_id),
)

abbrev pub is_sent : Delivery → Bool
is_sent sent = true
is_sent _ = false

abbrev pub is_forbidden : Delivery → Bool
is_forbidden forbidden = true
is_forbidden _ = false

-- One pass of the loop over the two users: the dialogue goes on, then the question is sent.
unfoldable pub advance : (index : ℕ) → ℕ → Quiz → Quiz
unfolding write_dialogue
advance index uid q =
    write_dialogue uid (record (q.dialogue uid) { phase = answering_questions; index = index }) q

unfoldable pub send_question : Turn → (index question_id : ℕ) → Quiz → Quiz × List Note
unfolding advance dissolve
send_question t index question_id q =
    let one = q.user_one_id in
    let two = q.user_two_id in
    let q1 = advance index one q in
    if is_forbidden (t.delivery one)
    then dissolve t one two q1
    else let q2 = advance index two q1 in
      let first = note_if (t.delivery one) (question one question_id index) in
      if is_forbidden (t.delivery two)
      then (let ended = dissolve t two one q2 in (ended.0, first ++ ended.1))
      else (q2, first ++ note_if (t.delivery two) (question two question_id index))

-- An index past the pool calls a function by a name that its module does not have: the error is logged.
unfoldable pub deliver_next_question : Turn → (index : ℕ) → List ℕ → Quiz → Quiz × List Note
unfolding send_question get_elem?
deliver_next_question t index q_ids q = elim (get_elem? q_ids index) [
  | none ↦ (q, [])
  | some question_id ↦
      if has_id question_id q.questions then send_question t index question_id q else (q, [])
]
