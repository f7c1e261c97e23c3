-- ===== src/Scheduler/Reminder.antt =====
-- The reminder after 12 hours (services/scheduler.py): both writers of a timer set its field `warned`
-- to "0", and HSETNX sets it only where it is missing.
use telegram_bot_new_version.Scheduler.Poll.{
  delete_timer, register_match_timeout, update_user_activity, Round, check_timeout,
}
use telegram_bot_new_version.Scheduler.Store.{Timer, Store, Message, reminder}
use telegram_bot_new_version.Prelude.{is_some, ℕ, ◌≡◌, Bool, true, false, List, [], ◌∷◌, ◌++◌}

-- What the bot and the loop do to the timers, and the messages that the loop sends, newest first.
-- `expire` is Redis deleting a key, `others` whatever happens to the rest of the store.
pub data Tracking : Store → List Message → Type 0 where
  begin : (s : Store) → s.timers ≡ [] → Tracking s []
  register :
      (s : Store) (told : List Message) (now id one two : ℕ)
      → Tracking s told
      → Tracking (register_match_timeout now id one two s) told
  active :
      (s : Store) (told : List Message) (now id : ℕ)
      → Tracking s told
      → Tracking (update_user_activity now id s) told
  expire :
      (s : Store) (told : List Message) (id : ℕ)
      → Tracking s told
      → Tracking (delete_timer id s) told
  check :
      (s : Store) (told : List Message) (r : Round) (id : ℕ)
      → r.hsetnx_fails ≡ false
      → Tracking s told
      → Tracking (check_timeout r id s).0 ((check_timeout r id s).1 ++ told)
  others :
      (s u : Store) (told : List Message) → u.timers ≡ s.timers → Tracking s told → Tracking u told

abbrev pub is_reminder : Message → Bool
is_reminder (reminder to) = true
is_reminder _ = false

-- The field `warned` of every timer is set.
abbrev AreMarked : List Timer → Type 0
AreMarked [] = Unit
AreMarked (t ∷ ts) = (is_some t.warned ≡ true) × AreMarked ts
