-- ===== src/Handlers/Questionnaire/Rounds.antt =====
-- Two partners who answer get through the questionnaire (bot/handlers/questionnaire.py).
use telegram_bot_new_version.Handlers.Questionnaire.{
  total_questions, Dialogue, Choice, Member, Quiz, Turn, set_phase, write_dialogue, get_elem?,
  has_id, sync_works, answering_questions, waiting_for_partner_answer, sent, advance, send_question,
  deliver_next_question, waiting_for_approval,
}
use telegram_bot_new_version.Handlers.Questionnaire.Register.{
  is_answer, save_user_answer, is_member, of_question, next_step, join, sync_answer,
  register_question_response, on_answer, finalize,
}
use telegram_bot_new_version.Prelude.Table.{find_by}
use telegram_bot_new_version.Prelude.{
  length, count_if, ℕ, ◌+◌, ◌≡◌, refl, ◌≢◌, true, false, none, some, List, [], ◌∷◌, arith, suc, ◌<◌,
  ap, ◌∙◌,
}

-- A call in which nothing fails.
abbrev pub calm : Turn
calm = record {
  insert_fails = false;
  activity_fails = false;
  sync = sync_works;
  pool_fails = false;
  delivery = λ uid. sent;
}

abbrev pub asked : ℕ → Dialogue
asked i = record { phase = answering_questions; in_match = true; index = i }

-- The questions that are left: in the table, each once, and neither answered nor counted yet.
abbrev pub AreOpen : List ℕ → Quiz → Type 0
AreOpen [] q = Unit
AreOpen (id ∷ ids) q =
    (find_by (is_answer q.user_one_id id) q.answers ≡ none)
    × (find_by (is_answer q.user_two_id id) q.answers ≡ none)
    × (count_if (of_question id) q.members ≡ 0)
    × (has_id id q.questions ≡ true)
    × (has_id id ids ≡ false)
    × AreOpen ids q

-- Both partners are at question `i`, and `ids` are the questions from it on.
pub record Ready (i : ℕ) (ids : List ℕ) (q : Quiz) : Type 0 where
  pub differ : q.user_one_id ≢ q.user_two_id
  pub stored : q.is_stored ≡ true
  pub one : q.dialogue q.user_one_id ≡ asked i
  pub two : q.dialogue q.user_two_id ≡ asked i
  pub whole : List ℕ
  pub pooled : q.pool ≡ some whole
  pub rest : (j : ℕ) → get_elem? whole (i + j) ≡ get_elem? ids j
  pub total : i + length ids ≡ total_questions
  pub left : AreOpen ids q

-- The state after the first of the two has answered.
unfoldable pub waits : (uid id : ℕ) → Choice → Quiz → Quiz
unfolding join write_dialogue
waits uid id c q =
    let locked = write_dialogue uid (set_phase waiting_for_partner_answer (q.dialogue uid)) q in
    join uid id (record locked {
      answers = record { user_id = uid; question_id = id; selected_option = c } ∷ locked.answers;
    })

no_member :
    (id uid : ℕ) (ms : List Member)
    → count_if (of_question id) ms ≡ 0
    → find_by (is_member id uid) ms ≡ none
unfolding count_if find_by
no_member id uid [] h = refl
no_member id uid (m ∷ ms) h = ground (arith, no_member id uid ms)

pub first_answer :
    (uid id i : ℕ) (c : Choice) (q : Quiz)
    → q.dialogue uid ≡ asked i
    → find_by (is_answer uid id) q.answers ≡ none
    → count_if (of_question id) q.members ≡ 0
    → on_answer calm uid id c q ≡ (waits uid id c q, [])
unfolding on_answer register_question_response save_user_answer sync_answer waits write_dialogue
    join count_if
first_answer uid id i c q d new empty = ground (arith, no_member id uid q.members empty)

pub second_answer :
    (uid other id i : ℕ) (c c' : Choice) (q : Quiz)
    → other ≢ uid
    → q.dialogue uid ≡ asked i
    → find_by (is_answer uid id) q.answers ≡ none
    → count_if (of_question id) q.members ≡ 0
    → on_answer calm uid id c (waits other id c' q)
      ≡ next_step calm (i + 1) (waits uid id c (waits other id c' q))
unfolding on_answer register_question_response save_user_answer sync_answer waits write_dialogue
    join count_if find_by
second_answer uid other id i c c' q differ d new empty =
    ground (arith, no_member id uid q.members empty)

-- What the rest of the questions does not see.
keeps-AreOpen :
    (ids : List ℕ) (q r : Quiz)
    → r.user_one_id ≡ q.user_one_id
    → r.user_two_id ≡ q.user_two_id
    → r.answers ≡ q.answers
    → r.members ≡ q.members
    → r.questions ≡ q.questions
    → AreOpen ids q
    → AreOpen ids r
keeps-AreOpen [] q r one two same members questions h = tt
keeps-AreOpen (id ∷ ids) q r one two same members questions (a, b, c, d, e, f) = (
  rw (one, same) a,
  rw (two, same) b,
  rw members c,
  rw questions d,
  e,
  keeps-AreOpen ids q r one two same members questions f,
)

pub waits-AreOpen :
    (uid id : ℕ) (c : Choice) (ids : List ℕ) (q : Quiz)
    → has_id id ids ≡ false
    → AreOpen ids q
    → AreOpen ids (waits uid id c q)
unfolding waits join write_dialogue find_by count_if
waits-AreOpen uid id c [] q new h = tt
waits-AreOpen uid id c (x ∷ ids) q new (a, b, n, d, e, f) =
    (ground arith, ground arith, ground arith, d, e, waits-AreOpen uid id c ids q (ground arith) f)

-- Both have answered: what the next step finds.
pub record BothWait (i : ℕ) (q r : Quiz) : Type 0 where
  pub ones : r.user_one_id ≡ q.user_one_id
  pub twos : r.user_two_id ≡ q.user_two_id
  pub rows : r.is_stored ≡ q.is_stored
  pub pools : r.pool ≡ q.pool
  pub alive : r.is_active ≡ q.is_active
  pub playing :
      ((r.dialogue q.user_one_id).in_match ≡ true) × ((r.dialogue q.user_two_id).in_match ≡ true)

pub both_wait :
    (i a b id : ℕ) (c c' : Choice) (q : Quiz)
    → q.dialogue q.user_one_id ≡ asked i
    → q.dialogue q.user_two_id ≡ asked i
    → BothWait i q (waits b id c' (waits a id c q))
unfolding waits join write_dialogue
both_wait i a b id c c' q one two = record {
  ones = refl;
  twos = refl;
  rows = refl;
  pools = refl;
  alive = refl;
  playing = (ground arith, ground arith);
}

pub next_question :
    (i y : ℕ) (whole : List ℕ) (r : Quiz)
    → r.pool ≡ some whole
    → r.is_stored ≡ true
    → i + 1 < total_questions
    → get_elem? whole (i + 1) ≡ some y
    → has_id y r.questions ≡ true
    → (next_step calm (i + 1) r).0 ≡ advance (i + 1) r.user_two_id (advance (i + 1) r.user_one_id r)
unfolding next_step deliver_next_question send_question advance write_dialogue
next_question i y whole r pool stored more at_next known = ground arith

pub advanced-Ready :
    (i y : ℕ) (ids whole : List ℕ) (r : Quiz)
    → r.user_one_id ≢ r.user_two_id
    → r.is_stored ≡ true
    → (r.dialogue r.user_one_id).in_match ≡ true
    → (r.dialogue r.user_two_id).in_match ≡ true
    → r.pool ≡ some whole
    → ((j : ℕ) → get_elem? whole (i + 1 + j) ≡ get_elem? (y ∷ ids) j)
    → i + 1 + length (y ∷ ids) ≡ total_questions
    → AreOpen (y ∷ ids) r
    → Ready (i + 1) (y ∷ ids) (advance (i + 1) r.user_two_id (advance (i + 1) r.user_one_id r))
unfolding advance write_dialogue
advanced-Ready i y ids whole r differ stored one two pool rest total h = record {
  differ = differ;
  stored = stored;
  one = ground arith;
  two = ground arith;
  whole = whole;
  pooled = pool;
  rest = rest;
  total = total;
  left = keeps-AreOpen (y ∷ ids) r _ refl refl refl refl refl h;
}

pub shifted :
    (i x : ℕ) (ids whole : List ℕ)
    → ((j : ℕ) → get_elem? whole (i + j) ≡ get_elem? (x ∷ ids) j)
    → (j : ℕ) → get_elem? whole (i + 1 + j) ≡ get_elem? ids j
unfolding get_elem?
shifted i x ids whole rest j =
    let e : i + 1 + j ≡ i + suc j = omega arith in ap (get_elem? whole) e ∙ rest (suc j)

pub finished :
    (i : ℕ) (whole : List ℕ) (r : Quiz)
    → r.pool ≡ some whole
    → r.is_stored ≡ true
    → i + 1 ≡ total_questions
    → let q' = (next_step calm (i + 1) r).0 in
      (q'.questionnaire_completed ≡ true)
      × (q'.is_active ≡ r.is_active)
      × ((q'.dialogue q'.user_one_id).phase ≡ waiting_for_approval)
      × ((q'.dialogue q'.user_two_id).phase ≡ waiting_for_approval)
unfolding next_step finalize write_dialogue
finished i whole r pool stored last = ground arith
