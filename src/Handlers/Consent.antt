-- ===== src/Handlers/Consent.antt =====
-- The consent to a chat and its end: `register_chat_consent`, `activate_anonymous_chat_session` and
-- `end_active_anonymous_chat` of bot/handlers/anonymous_chat.py, for one match whose row exists. A call is one step; the keys of Redis
-- and the messages, whose failures are only logged, are left out.
pub mod Opened
use telegram_bot_new_version.Prelude.{◌==◌, if◌then◌else◌, ℕ, Bool, true, false, not, ◌&&◌}
use telegram_bot_new_version.Prelude.Table.{at}

-- The state of a dialogue, as far as it belongs to the consent.
pub data ChatState : Type 0 where
  awaits_approval in_chat no_state : ChatState

-- The row of the match, and for each user the state and whether `match_history_id` is set.
pub record Consent : Type 0 where
  pub user_one_id : ℕ
  pub user_two_id : ℕ
  pub is_active : Bool
  pub chat_approved : Bool
  pub user_one_approved : Bool
  pub user_two_approved : Bool
  pub state : ℕ → ChatState
  pub in_match : ℕ → Bool

-- `call.data`
pub data Vote : Type 0 where
  approve_chat_yes approve_chat_no : Vote

-- Which commits fail in a call: the one of the vote, and the one of the activation.
pub record Commits : Type 0 where
  pub vote_fails : Bool
  pub activation_fails : Bool

-- `set_state(None)` and `clear()`.
unfoldable pub clear_chat : ℕ → Consent → Consent
clear_chat uid s = record s { state = at uid no_state s.state; in_match = at uid false s.in_match }

-- One pass of the loop over the two users.
unfoldable pub enter_chat : ℕ → Consent → Consent
enter_chat uid s = record s { state = at uid in_chat s.state; in_match = at uid true s.in_match }

-- A commit that fails is rolled back and raised before a dialogue changes.
unfoldable pub activate_chat : Bool → Consent → Consent
unfolding enter_chat
activate_chat fails s =
    if fails
    then s
    else enter_chat s.user_two_id (
        enter_chat s.user_one_id
          (record s { chat_approved = true; user_one_approved = true; user_two_approved = true }))

-- The rejection: a commit that fails is rolled back and only logged.
unfoldable pub reject_chat : Bool → (uid partner_id : ℕ) → Consent → Consent
unfolding clear_chat
reject_chat fails uid partner_id s =
    clear_chat partner_id (clear_chat uid (if fails then s else record s { is_active = false }))

unfoldable pub approve_chat : Commits → Bool → Consent → Consent
unfolding activate_chat
approve_chat c is_user_one s =
    if c.vote_fails
    then s
    else let voted =
        if is_user_one
        then record s { user_one_approved = true }
        else record s { user_two_approved = true } in
      if voted.user_one_approved && voted.user_two_approved
      then activate_chat c.activation_fails voted
      else voted

abbrev pub awaits : ChatState → Bool
awaits awaits_approval = true
awaits _ = false

-- The handler, with the filter on the dialogue's state.
unfoldable pub register_chat_consent : Commits → ℕ → Vote → Consent → Consent
unfolding reject_chat approve_chat
register_chat_consent c uid v s =
    let is_user_one = s.user_one_id == uid in
    let partner_id = if is_user_one then s.user_two_id else s.user_one_id in
    if not (awaits (s.state uid))
    then s
    else if not (s.in_match uid && s.is_active)
    then clear_chat uid s
    else if s.chat_approved
    then s
    else elim v [
      | approve_chat_no ↦ reject_chat c.vote_fails uid partner_id s
      | approve_chat_yes ↦ approve_chat c is_user_one s
    ]

abbrev pub chats : ChatState → Bool
chats in_chat = true
chats _ = false

-- The end of a chat by one of the two, whose dialogues name each other and the match. `is_locked` is the
-- key that forbids it for five seconds; a commit that fails is rolled back and only logged.
unfoldable pub end_active_anonymous_chat : (is_locked commit_fails : Bool) → ℕ → Consent → Consent
unfolding clear_chat
end_active_anonymous_chat is_locked commit_fails uid s =
    let partner_id = if s.user_one_id == uid then s.user_two_id else s.user_one_id in
    if not (chats (s.state uid))
    then s
    else if is_locked
    then s
    else clear_chat partner_id
        (clear_chat uid (if commit_fails then s else record s { is_active = false }))
