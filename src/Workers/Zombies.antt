-- ===== src/Workers/Zombies.antt =====
-- `_clean_zombie_states` of ZombieCleanerWorker (services/scheduler.py). The states of a batch are read
-- together, and its matches by one query; the batches are treated alike, so one list stands for all.
pub mod Cleaned
use telegram_bot_new_version.Models.{Db}
use telegram_bot_new_version.Matches.{get_active_match}
use telegram_bot_new_version.Matching.Queue.{Status, UserState, Redis}
use telegram_bot_new_version.Middlewares.StateLock.{leave_queue}
use telegram_bot_new_version.Prelude.{
  if◌then◌else◌, is_none, ℕ, ◌+◌, Bool, true, false, ◌&&◌, List, [], ◌∷◌,
}

abbrev pub is_matched : Status → Bool
is_matched Status.matched = true
is_matched Status.queuing = false

-- In a match by Redis, and in none by the database.
unfoldable pub is_zombie : Db → UserState → Bool
is_zombie d u = is_matched u.status && is_none (get_active_match u.tg_id d)

-- `remove_from_queue`, and the DEL of the pipeline.
unfoldable pub clean_states : List UserState → Db → Redis → Redis × ℕ
unfolding is_zombie
clean_states [] d r = (r, 0)
clean_states (u ∷ us) d r =
    let (r', killed) = clean_states us d (if is_zombie d u then leave_queue u.tg_id r else r) in
    (r', if is_zombie d u then killed + 1 else killed)

unfoldable pub clean_zombie_states : Db → Redis → Redis × ℕ
unfolding clean_states
clean_zombie_states d r = clean_states r.states d r
