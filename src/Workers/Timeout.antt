-- ===== src/Workers/Timeout.antt =====
-- `_process_timeouts` of QueueTimeoutWorker (services/scheduler.py), with `set_queue_ttl` and
-- `get_expired_queue_users` of services/matching_engine.py. Times are seconds. Of the dialogue it keeps
-- who was cleared and told.
pub mod Dropped
use telegram_bot_new_version.Matching.Queue.{Status, UserState, Redis, remove_from_queue}
use telegram_bot_new_version.Prelude.{
  ltb, leb, ◌==◌, if◌then◌else◌, ℕ, ◌+◌, ◌-◌, Bool, true, false, not, ◌&&◌, ◌||◌, List, [], ◌∷◌,
}
use telegram_bot_new_version.Prelude.Table.{delete_by}

-- The key `match:queue_started:<id>`.
pub record Marker : Type 0 where
  pub id : ℕ
  pub expires_at : ℕ

-- _QUEUE_TTL_SECONDS
abbrev pub queue_ttl : ℕ
queue_ttl = 300

unfoldable pub set_queue_ttl : (now id : ℕ) → List Marker → List Marker
set_queue_ttl now id ms =
    record { id = id; expires_at = now + queue_ttl } ∷ delete_by (λ m. m.id == id) ms

unfoldable pub still_in_ttl : (now id : ℕ) → List Marker → Bool
still_in_ttl now id [] = false
still_in_ttl now id (m ∷ ms) = (m.id == id && ltb now m.expires_at) || still_in_ttl now id ms

abbrev pub is_queuing : Status → Bool
is_queuing Status.queuing = true
is_queuing Status.matched = false

unfoldable pub is_late : ℕ → List Marker → UserState → Bool
unfolding still_in_ttl
is_late now ms u = if is_queuing u.status then not (still_in_ttl now u.tg_id ms) else false

-- The scan, until `limit` ids are found; a limit of 0 is read as 1, as the test comes after the append.
unfoldable pub get_expired_queue_users : (now limit : ℕ) → List Marker → List UserState → List ℕ
unfolding is_late
get_expired_queue_users now limit ms [] = []
get_expired_queue_users now limit ms (u ∷ us) =
    let skipped = get_expired_queue_users now limit ms us in
    let more = get_expired_queue_users now (limit - 1) ms us in
    if is_late now ms u then u.tg_id ∷ (if leb limit 1 then [] else more) else skipped

-- One user: out of the queue, whatever the state is by now, the dialogue cleared, and told.
unfoldable pub process_timeout : ℕ → Redis → Redis
process_timeout id r = (remove_from_queue id r).0

unfoldable pub process_all : List ℕ → Redis → Redis
unfolding process_timeout
process_all [] r = r
process_all (id ∷ ids) r = process_all ids (process_timeout id r)

unfoldable pub process_timeouts : ℕ → List Marker → Redis → Redis × List ℕ
unfolding process_all get_expired_queue_users
process_timeouts now ms r =
    let expired = get_expired_queue_users now 50 ms r.states in (process_all expired r, expired)
