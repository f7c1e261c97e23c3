-- ===== src/Scheduler/Poll.antt =====
-- The timers of DatingScheduler (services/scheduler.py): `register_match_timeout`,
-- `update_user_activity`, `_send_warning`, and what `verify_timeout_loops` does with one key. Redis
-- answers, but for the two commands whose failure the loop handles on the spot. The message of
-- a reminder reaches its user.
use telegram_bot_new_version.Scheduler.Termination.{Call, terminate_match_unified}
use telegram_bot_new_version.Scheduler.Store.{
  claim_ttl, warn_after, close_after, Timer, Store, Message, set_nx, reminder,
}
use telegram_bot_new_version.Prelude.{
  leb, ◌==◌, if◌then◌else◌, ℕ, ◌-◌, Bool, true, false, not, ◌&&◌, Option, none, some, List, [], ◌∷◌,
}
use telegram_bot_new_version.Prelude.Table.{delete_by, find, update}

abbrev pub timer_key : Timer → ℕ
timer_key t = t.id

abbrev pub get_timer : ℕ → Store → Option Timer
get_timer id s = find timer_key id s.timers

abbrev pub set_warned : Timer → Timer
set_warned t = record t { warned = some true }

abbrev pub set_activity : ℕ → Timer → Timer
set_activity now t = record t { last_activity = some now; warned = some false }

abbrev pub delete_timer : ℕ → Store → Store
delete_timer id s = record s { timers = delete_by (λ t. t.id == id) s.timers }

-- HSET of all four fields.
unfoldable pub register_match_timeout : (now id user_one user_two : ℕ) → Store → Store
register_match_timeout now id user_one user_two s = record s {
  timers =
      record {
        id = id;
        last_activity = some now;
        partners = some (user_one, user_two);
        warned = some false;
      }
      ∷ delete_by (λ t. t.id == id) s.timers;
}

-- HSET of two fields, on a key that exists.
unfoldable pub update_user_activity : (now id : ℕ) → Store → Store
update_user_activity now id s = record s {
  timers = update timer_key id (set_activity now) s.timers;
}

-- `_parse_partners` and the loop of `_send_warning`.
unfoldable pub send_warning : Timer → List Message
send_warning t = elim t.partners [ none ↦ [] | some (one, two) ↦ reminder one ∷ reminder two ∷ [] ]

-- HSETNX key warned 1, and whether the field was set.
unfoldable pub hsetnx_warned : ℕ → Timer → Store → Store × Bool
hsetnx_warned id t s = elim t.warned [
  | none ↦ (record s { timers = update timer_key id set_warned s.timers }, true)
  | some w ↦ (s, false)
]

-- What the surroundings do to one round for one key: the clock, whether the claim, HSETNX and
-- `close_inactive_date` raise, and the call that the last one makes.
pub record Round : Type 0 where
  pub now : ℕ
  pub claim_fails : Bool
  pub hsetnx_fails : Bool
  pub close_fails : Bool
  pub call : Call

-- A call of `close_inactive_date`. An exception is one of the UPDATE: the lock is released and nothing
-- is written.
unfoldable pub close_inactive_date : Round → ℕ → Store → Store × Bool × List Message
close_inactive_date r id s =
    if r.close_fails
    then (s, false, [])
    else let (s', ended, told) = terminate_match_unified r.call id s in (s', true, told)

-- The branch of 24 hours. A claim that was taken is kept, and deleted where the call raises.
unfoldable pub close_branch : Round → ℕ → Store → Store × List Message
unfolding close_inactive_date
close_branch r id s =
    if r.claim_fails
    then (s, [])
    else let claimed = set_nx r.now claim_ttl id 1 s.claims in
      if claimed.1
      then (let s' = record s { claims = claimed.0 } in
          let closed = close_inactive_date r id s' in
          if closed.1
          then (delete_timer id closed.0, closed.2)
          else (record closed.0 { claims = delete_by (λ l. l.id == id) closed.0.claims }, []))
      else (s, [])

-- The branch of 12 hours.
unfoldable pub warn_branch : Round → ℕ → Timer → Store → Store × List Message
unfolding hsetnx_warned send_warning
warn_branch r id t s =
    if r.hsetnx_fails
    then (s, send_warning t)
    else let marked = hsetnx_warned id t s in
      if marked.1 then (marked.0, send_warning t) else (s, [])

-- `data.get("last_activity", 0)`, `data.get("warned", "0") == "1"`
abbrev pub last_activity_of : Timer → ℕ
last_activity_of t = elim t.last_activity [ none ↦ 0 | some n ↦ n ]

abbrev pub is_warned : Timer → Bool
is_warned t = elim t.warned [ none ↦ false | some w ↦ w ]

-- One key of the scan.
unfoldable pub check_timeout : Round → ℕ → Store → Store × List Message
unfolding close_branch warn_branch
check_timeout r id s = elim (get_timer id s) [
  | none ↦ (s, [])
  | some t ↦
      let idle_seconds = r.now - last_activity_of t in
      if leb close_after idle_seconds
      then close_branch r id s
      else if leb warn_after idle_seconds && not (is_warned t)
      then warn_branch r id t s
      else (s, [])
]
