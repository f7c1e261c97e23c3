-- ===== src/Workers/Online.antt =====
-- OnlineStatusWorker of services/scheduler.py: `_batch_flush_last_active` and one round of
-- `sync_offline_users`. Times are microseconds; at most as many keys as a scan takes are read, each
-- with a time that parses; the messages to those who watch a user are left out.
pub mod Rounds
use telegram_bot_new_version.Models.Users.{User}
use telegram_bot_new_version.Prelude.{
  ltb, length, take, drop, ℕ, zero, suc, ◌+◌, Bool, true, false, ◌&&◌, none, some, List, [], ◌∷◌,
  map,
}
use telegram_bot_new_version.Prelude.Table.{update_by, find}

-- The key `user:last_active:<id>`.
pub record Seen : Type 0 where
  pub tg_id : ℕ
  pub at : ℕ

abbrev pub seen_key : Seen → ℕ
seen_key s = s.tg_id

-- CASE WHEN … ELSE last_active, and is_online, for one row of the chunk or of none.
unfoldable pub touch : List Seen → User → User
touch chunk u = elim (find seen_key u.tg_id chunk) [
  | none ↦ u
  | some s ↦ record u { is_online = true; last_active = s.at }
]

-- One UPDATE … WHERE tg_id IN.
unfoldable pub apply_chunk : List Seen → List User → List User
unfolding touch
apply_chunk chunk us = map (touch chunk) us

-- `range(0, len(tg_ids), 100)`, on fuel: one round more than there are ids is enough (`Rounds`).
unfoldable pub flush_chunks : ℕ → List Seen → List User → List User
unfolding apply_chunk
flush_chunks zero batch us = us
flush_chunks (suc fuel) [] us = us
flush_chunks (suc fuel) (s ∷ batch) us =
    flush_chunks fuel (drop 100 (s ∷ batch)) (apply_chunk (take 100 (s ∷ batch)) us)

unfoldable pub batch_flush_last_active : List Seen → List User → List User
unfolding flush_chunks
batch_flush_last_active batch us = flush_chunks (length batch) batch us

-- UPDATE … SET is_online = False WHERE is_online AND last_active < now - idle_minutes.
abbrev pub is_stale : (now idle : ℕ) → User → Bool
is_stale now idle u = u.is_online && ltb (u.last_active + idle) now

unfoldable pub set_offline : User → User
set_offline u = record u { is_online = false }

unfoldable pub mark_offline : (now idle : ℕ) → List User → List User
unfolding set_offline
mark_offline now idle us = update_by (is_stale now idle) set_offline us

unfoldable pub sync_offline_users : (now idle : ℕ) → List Seen → List User → List User
unfolding mark_offline batch_flush_last_active
sync_offline_users now idle batch us = mark_offline now idle (batch_flush_last_active batch us)
