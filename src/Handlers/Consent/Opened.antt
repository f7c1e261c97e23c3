-- ===== src/Handlers/Consent/Opened.antt =====
-- When a chat opens (bot/handlers/anonymous_chat.py).
use telegram_bot_new_version.Handlers.Consent.{
  approve_chat_yes, approve_chat_no, in_chat, Consent, Vote, Commits, clear_chat, enter_chat,
  activate_chat, reject_chat, approve_chat, register_chat_consent, awaits_approval, no_state, chats,
  end_active_anonymous_chat,
}
use telegram_bot_new_version.Prelude.{
  ◌==◌, ℕ, ◌≡◌, ◌⊎◌, Bool, true, false, ◌&&◌, ◌||◌, List, [], ◌∷◌, arith, refl, ◌≢◌,
}
use telegram_bot_new_version.Channels.{before}
use telegram_bot_new_version.Handlers.Questionnaire.Rounds.{waits}

-- Votes of either partner, newest first, and attempts to end the chat, whatever commits fail.
pub data Voting (s : Consent) : Consent → List (ℕ × Vote) → Type 0 where
  start : Voting s s []
  voted :
      {t : Consent} {votes : List (ℕ × Vote)} (c : Commits) (uid : ℕ) (v : Vote)
      → (uid ≡ s.user_one_id) ⊎ (uid ≡ s.user_two_id)
      → Voting s t votes
      → Voting s (register_chat_consent c uid v t) ((uid, v) ∷ votes)
  ended :
      {t : Consent} {votes : List (ℕ × Vote)} (is_locked commit_fails : Bool) (uid : ℕ)
      → Voting s t votes
      → Voting s (end_active_anonymous_chat is_locked commit_fails uid t) votes

abbrev pub is_yes : Vote → Bool
is_yes approve_chat_yes = true
is_yes approve_chat_no = false

-- Whether a user has voted yes.
unfoldable pub said_yes : ℕ → List (ℕ × Vote) → Bool
said_yes uid [] = false
said_yes uid ((u, v) ∷ votes) = (u == uid && is_yes v) || said_yes uid votes

-- The row's flags follow the votes, and a dialogue is in the chat only if the row says so.
record IsHeard (s t : Consent) (votes : List (ℕ × Vote)) : Type 0 where
  ones : t.user_one_id ≡ s.user_one_id
  twos : t.user_two_id ≡ s.user_two_id
  one_said : t.user_one_approved ≡ true → said_yes s.user_one_id votes ≡ true
  two_said : t.user_two_approved ≡ true → said_yes s.user_two_id votes ≡ true
  opened : t.chat_approved ≡ true → (t.user_one_approved && t.user_two_approved) ≡ true
  inside : (j : ℕ) → chats (t.state j) ≡ true → t.chat_approved ≡ true

vote-IsHeard :
    (s t : Consent) (votes : List (ℕ × Vote)) (c : Commits) (uid : ℕ) (v : Vote)
    → (uid ≡ s.user_one_id) ⊎ (uid ≡ s.user_two_id)
    → IsHeard s t votes
    → IsHeard s (register_chat_consent c uid v t) ((uid, v) ∷ votes)
unfolding register_chat_consent approve_chat reject_chat activate_chat enter_chat clear_chat
    said_yes
vote-IsHeard s t votes c uid approve_chat_no mine h = record {
  ones = ground (arith, h.ones);
  twos = ground (arith, h.twos);
  one_said = λ e. ground (arith, h.one_said);
  two_said = λ e. ground (arith, h.two_said);
  opened = λ e. ground (arith, h.opened);
  inside = λ j e. ground (arith, h.inside j);
}
vote-IsHeard s t votes c uid approve_chat_yes mine h = record {
  ones = ground (arith, h.ones);
  twos = ground (arith, h.twos);
  one_said = λ e. ground (arith, h.one_said, h.ones, h.twos, mine);
  two_said = λ e. ground (arith, h.two_said, h.ones, h.twos, mine);
  opened = λ e. ground (arith, h.opened);
  inside = λ j e. ground (arith, h.inside j);
}

end-IsHeard :
    (s t : Consent) (votes : List (ℕ × Vote)) (is_locked commit_fails : Bool) (uid : ℕ)
    → IsHeard s t votes
    → IsHeard s (end_active_anonymous_chat is_locked commit_fails uid t) votes
unfolding end_active_anonymous_chat clear_chat
end-IsHeard s t votes is_locked commit_fails uid h = record {
  ones = ground (arith, h.ones);
  twos = ground (arith, h.twos);
  one_said = λ e. ground (arith, h.one_said);
  two_said = λ e. ground (arith, h.two_said);
  opened = λ e. ground (arith, h.opened);
  inside = λ j e. ground (arith, h.inside j);
}

Voting-IsHeard :
    {s t : Consent} {votes : List (ℕ × Vote)}
    → IsHeard s s []
    → Voting s t votes
    → IsHeard s t votes
Voting-IsHeard h start = h
Voting-IsHeard h (voted c uid v mine before) =
    vote-IsHeard _ _ _ c uid v mine (Voting-IsHeard h before)
Voting-IsHeard h (ended is_locked commit_fails uid before) =
    end-IsHeard _ _ _ is_locked commit_fails uid (Voting-IsHeard h before)

-- From a match that neither partner has approved yet, with nobody in its chat: whatever the partners
-- press, in any order, also to end a chat, and whatever commits fail, a dialogue is in the chat only
-- after each of the two has voted yes.
pub opened_by_both :
    {s t : Consent} {votes : List (ℕ × Vote)}
    → Voting s t votes
    → s.user_one_approved ≡ false
    → s.user_two_approved ≡ false
    → s.chat_approved ≡ false
    → ((j : ℕ) → chats (s.state j) ≡ false)
    → (uid : ℕ) → chats (t.state uid) ≡ true
    → (said_yes s.user_one_id votes ≡ true) × (said_yes s.user_two_id votes ≡ true)
opened_by_both {s} before no_one no_two shut outside uid inside =
    let at_start : IsHeard s s [] = record {
      ones = refl;
      twos = refl;
      one_said = λ e. absurd (cc);
      two_said = λ e. absurd (cc);
      opened = λ e. absurd (cc);
      inside = λ j e. absurd (outside_inside (chats (s.state j)) (outside j) e);
    } in
    let h = Voting-IsHeard at_start before in
    let both = h.opened (h.inside uid inside) in
    (h.one_said (ground (arith, both)), h.two_said (ground (arith, both)))
  where
    outside_inside : (b : Bool) → b ≡ false → b ≡ true → ⊥
    outside_inside b e f = cc

-- A rejection whose commit fails ends both dialogues and leaves the match active.
pub rejection_lost :
    (c : Commits) (s : Consent)
    → c.vote_fails ≡ true
    → s.state s.user_one_id ≡ awaits_approval
    → s.in_match s.user_one_id ≡ true
    → s.is_active ≡ true
    → s.chat_approved ≡ false
    → let t = register_chat_consent c s.user_one_id approve_chat_no s in
      (t.is_active ≡ true) × (t.state s.user_one_id ≡ no_state) × (t.state s.user_two_id ≡ no_state)
unfolding register_chat_consent reject_chat clear_chat
rejection_lost c s fails waits playing active shut = ground arith

-- Both say yes, in either order, and no commit fails: the chat is open for both.
pub chat_opens :
    (c c' : Commits) (first second : ℕ) (s : Consent)
    → ((first ≡ s.user_one_id) × (second ≡ s.user_two_id))
      ⊎ ((first ≡ s.user_two_id) × (second ≡ s.user_one_id))
    → s.user_one_id ≢ s.user_two_id
    → c.vote_fails ≡ false
    → c'.vote_fails ≡ false
    → c.activation_fails ≡ false
    → c'.activation_fails ≡ false
    → s.is_active ≡ true
    → s.chat_approved ≡ false
    → s.state first ≡ awaits_approval
    → s.state second ≡ awaits_approval
    → s.in_match first ≡ true
    → s.in_match second ≡ true
    → s.user_one_approved ≡ false
    → s.user_two_approved ≡ false
    → let t =
        register_chat_consent c' second approve_chat_yes
          (register_chat_consent c first approve_chat_yes s) in
      (t.chat_approved ≡ true)
      × (t.state s.user_one_id ≡ in_chat)
      × (t.state s.user_two_id ≡ in_chat)
unfolding register_chat_consent approve_chat activate_chat enter_chat
chat_opens c c' first second s order differ f1 f2 a1 a2 active shut w1 w2 p1 p2 n1 n2 = ground arith
