-- ===== src/Middlewares/StateLock.antt =====
-- `StateLockMiddleware` of bot/middlewares/state_lock.py. Redis and Telegram answer. Of the data of a
-- dialogue only the two entries of the lock are modelled; `clear` empties all of it.
pub mod Guard
pub mod Leaks
use text.Mathlib.Text.{◌==◌ as str_eq, starts_with}
use telegram_bot_new_version.Models.{Db}
use telegram_bot_new_version.Matches.{get_active_match}
use telegram_bot_new_version.Matching.Queue.{Redis, remove_from_queue}
use telegram_bot_new_version.Middlewares.LockTables.{
  LockedState, FsmState, is_real_match, ReplyBtn, button_no, state_no, global_allowed_texts,
  global_allowed_callback_prefixes, locked_state_ttl, Actions, state_allowed_actions, unlocked,
  locked,
}
use telegram_bot_new_version.Prelude.{
  ltb, ◌==◌, if◌then◌else◌, is_none, ℕ, ◌+◌, String, Bool, true, false, not, ◌&&◌, ◌||◌, Option,
  none, some, List, [], ◌∷◌, ◌++◌,
}
use telegram_bot_new_version.Prelude.Table.{delete_by}

-- The text of a message: one of `ReplyBtn`, a text that starts with a slash, or another.
pub data Text : Type 0 where
  button : ReplyBtn → Text
  command plain : Text

-- An update that is a message, with its sender and its text if it has one, a callback with its data, or
-- neither.
pub data Event : Type 0 where
  message : (from : Option ℕ) → Option Text → Event
  callback : (from : ℕ) → (cb : String) → Event
  other_event : Event

pub record Fsm : Type 0 where
  pub state : Option FsmState
  pub entered_at : Option ℕ
  pub tracked_state : Option LockedState

-- `handled` is a call of the handler.
pub data Verdict : Type 0 where
  handled exited blocked : Verdict

-- `set_state(None)` and `clear()`.
abbrev pub cleared : Fsm
cleared = record { state = none; entered_at = none; tracked_state = none }

-- `remove_from_queue` and the DEL of `user:state:<id>`.
unfoldable pub leave_queue : ℕ → Redis → Redis
leave_queue id r =
    let left = (remove_from_queue id r).0 in
    record left { states = delete_by (λ u. u.tg_id == id) left.states }

unfoldable pub leave_if_known : Option ℕ → Redis → Redis
unfolding leave_queue
leave_if_known none r = r
leave_if_known (some id) r = leave_queue id r

abbrev pub has_button : ReplyBtn → List ReplyBtn → Bool
has_button b [] = false
has_button b (c ∷ cs) = button_no c == button_no b || has_button b cs

abbrev pub has_prefix : String → List String → Bool
has_prefix cb [] = false
has_prefix cb (p ∷ ps) = starts_with cb p || has_prefix cb ps

-- What part 3 decides: `pass` calls the handler, `allow` restarts the timer before it does.
pub data Decision : Type 0 where
  pass allow block : Decision

abbrev pub allow_if : Bool → Decision
allow_if true = allow
allow_if false = block

unfoldable pub decide : Actions → Event → Decision
decide a (message from none) = allow_if a.allow_media
decide a (message from (some command)) = pass
decide a (message from (some (button b))) =
    allow_if (has_button b (a.allowed_texts ++ global_allowed_texts))
decide a (message from (some plain)) = allow_if a.allow_other_texts
decide a (callback from cb) =
    allow_if (has_prefix cb (a.allowed_callback_prefixes ++ global_allowed_callback_prefixes))
decide a other_event = pass

unfoldable pub act_on : Decision → ℕ → Fsm → Fsm × Verdict
act_on pass now f = (f, handled)
act_on allow now f = (record f { entered_at = some now }, handled)
act_on block now f = (f, blocked)

abbrev pub sender : Event → Option ℕ
sender (message from text) = from
sender (callback from cb) = some from
sender other_event = none

-- Whether the two entries belong to another state or are not set.
abbrev pub is_first_seen : LockedState → Fsm → Bool
is_first_seen s f = elim f.entered_at [
  | none ↦ true
  | some t ↦ elim f.tracked_state [ none ↦ true | some u ↦ not (state_no u == state_no s) ]
]

unfoldable pub is_expired : ℕ → LockedState → Fsm → Bool
is_expired now s f =
    if is_first_seen s f
    then false
    else elim f.entered_at [ none ↦ false | some t ↦ ltb (t + locked_state_ttl) now ]

unfoldable pub track : ℕ → LockedState → Fsm → Fsm
track now s f =
    if is_first_seen s f then record f { entered_at = some now; tracked_state = some s } else f

-- `_try_auto_heal` finds a ghost: a known sender in a state of a match, who has no active match.
unfoldable pub is_ghost : LockedState → Option ℕ → Db → Bool
is_ghost s none d = false
is_ghost s (some id) d = is_real_match s && is_none (get_active_match id d)

unfoldable pub in_locked_state : ℕ → LockedState → Event → Db → Fsm → Redis → Fsm × Redis × Verdict
unfolding leave_if_known decide act_on is_expired track is_ghost
in_locked_state now s e d f r =
    if is_expired now s f
    then (cleared, leave_if_known (sender e) r, handled)
    else if is_ghost s (sender e) d
    then (cleared, leave_if_known (sender e) r, handled)
    else let (f', v) = act_on (decide (state_allowed_actions s) e) now (track now s f) in (f', r, v)

abbrev pub is_force_exit : Event → Bool
is_force_exit (callback from cb) = str_eq cb "force_exit_state"
is_force_exit _ = false

unfoldable pub state_lock : ℕ → Event → Db → Fsm → Redis → Fsm × Redis × Verdict
unfolding in_locked_state
state_lock now other_event d f r = (f, r, handled)
state_lock now e d f r =
    if is_force_exit e then (cleared, leave_if_known (sender e) r, exited) else elim f.state [
      | none ↦ (f, r, handled)
      | some state ↦ elim state [
        | unlocked name ↦ (f, r, handled)
        | locked s ↦ in_locked_state now s e d f r
      ]
    ]
