-- ===== src/Scheduler/Termination.antt =====
-- The termination of a match by `terminate_match_unified` of services/scheduler.py, as one caller
-- sees it. `Race` runs several callers side by side. The call commits its own UPDATE.
use telegram_bot_new_version.Models.Social.{MatchHistory}
use telegram_bot_new_version.Scheduler.Store.{
  match_lock_ttl, Lock, Waiter, Store, Message, set_nx, unlock, atomic_deactivate_match,
  target_free,
}
use telegram_bot_new_version.Prelude.{
  leb, ◌==◌, if◌then◌else◌, keep_if, ℕ, Bool, true, false, none, some, List, [], ◌∷◌, ◌++◌, map,
}
use telegram_bot_new_version.Prelude.Table.{delete_by}

-- What a call brings: its token, whether it is manual, the readings of the clock at its attempts for
-- the lock, its deadline, and the clock at the UPDATE and at the release.
pub record Call : Type 0 where
  pub token : ℕ
  pub is_manual : Bool
  pub readings : List ℕ
  pub deadline : ℕ
  pub ended_at : ℕ
  pub released_at : ℕ

-- `while True`: an attempt at each reading of the clock, until one succeeds or the deadline is past.
unfoldable pub spin : ℕ → ℕ → ℕ → List ℕ → List Lock → List Lock × Bool
spin id token deadline [] locks = (locks, false)
spin id token deadline (now ∷ later) locks =
    let tried = set_nx now match_lock_ttl id token locks in
    let rest = spin id token deadline later locks in
    if tried.1 then tried else if leb deadline now then (locks, false) else rest

unfoldable pub try_acquire_match_lock : Call → ℕ → List Lock → List Lock × Bool
unfolding spin
try_acquire_match_lock c id locks =
    if c.is_manual then spin id c.token c.deadline c.readings locks else elim c.readings [
      | [] ↦ (locks, false)
      | now ∷ later ↦ set_nx now match_lock_ttl id c.token locks
    ]

-- The two sets of waiting users are read, deleted, and each member is told.
unfoldable pub tell_waiters : ℕ → List Waiter → List Waiter × List Message
tell_waiters uid ws = (
  delete_by (λ w. w.target == uid) ws,
  map (λ w. target_free w.id w.target) (keep_if (λ w. w.target == uid) ws),
)

unfoldable pub post_termination_side_effects :
    MatchHistory → List Waiter → List Waiter × List Message
unfolding tell_waiters
post_termination_side_effects m ws =
    let one = tell_waiters m.user_one_id ws in
    let two = tell_waiters m.user_two_id one.0 in (two.0, one.1 ++ two.1)

unfoldable pub release_match_lock : Call → ℕ → Store → Store
release_match_lock c id s = record s { locks = unlock c.released_at id c.token s.locks }

-- Phases 2 and 3, under the lock.
unfoldable pub terminate_locked : Call → ℕ → Store → Store × Bool × List Message
unfolding post_termination_side_effects release_match_lock
terminate_locked c id s =
    let ended = atomic_deactivate_match c.ended_at id s.matches in
    elim ended.1 [
      | none ↦ (release_match_lock c id s, false, [])
      | some m ↦
          let told = post_termination_side_effects m s.waiters in
          (release_match_lock c id (record s { matches = ended.0; waiters = told.0 }), true, told.1)
    ]

unfoldable pub terminate_match_unified : Call → ℕ → Store → Store × Bool × List Message
unfolding terminate_locked
terminate_match_unified c id s =
    let tried = try_acquire_match_lock c id s.locks in
    if tried.1 then terminate_locked c id (record s { locks = tried.0 }) else (s, false, [])
