-- ===== src/Middlewares/StateLock/Leaks.antt =====
-- Where the lock of bot/middlewares/state_lock.py gives way.
use telegram_bot_new_version.Models.{Db}
use telegram_bot_new_version.Matching.Queue.{Redis}
use telegram_bot_new_version.Middlewares.LockTables.{
  LockedState, FsmState, locked_state_ttl, locked,
}
use telegram_bot_new_version.Middlewares.StateLock.{
  other_event, message, callback, Fsm, cleared, leave_if_known, sender, is_expired, track,
  in_locked_state, is_force_exit, state_lock, Event, handled, message,
}
use telegram_bot_new_version.Middlewares.StateLock.Guard.{is_other}
use telegram_bot_new_version.Prelude.{ℕ, ◌+◌, ◌<◌, ◌≡◌, false, Option, some, arith}

-- `set_state`, which leaves the data of the dialogue alone.
unfoldable pub set_state : Option FsmState → Fsm → Fsm
set_state state f = record f { state = state }

-- A visit to a locked state: the first update that the state allows there, at `now`.
unfoldable pub visit : ℕ → LockedState → Fsm → Fsm
unfolding set_state
visit now s f = record (track now s (set_state (some (locked s)) f)) { entered_at = some now }

-- A second visit to the locked state of the last one, more than its life after that one's last allowed
-- update, where the state was left by `set_state`: the first update there, whatever it is but a force
-- exit, finds the lock expired, loses the state and its data, and goes to the handlers without it.
pub second_visit_expired :
    (before later : ℕ) (s : LockedState) (between : Option FsmState) (e : Event) (d : Db)
    → (f : Fsm) (r : Redis) → is_other e ≡ false
    → is_force_exit e ≡ false
    → before + locked_state_ttl < later
    → let f' = set_state (some (locked s)) (set_state between (visit before s f)) in
      state_lock later e d f' r ≡ (cleared, leave_if_known (sender e) r, handled)
unfolding state_lock in_locked_state is_expired visit set_state track
second_visit_expired before later s between other_event d f r o x late = absurd (cc)
second_visit_expired before later s between (message from text) d f r o x late = ground arith
second_visit_expired before later s between (callback from cb) d f r o x late = ground arith
