-- ===== src/Scheduler/Polled.antt =====
-- What the polling loop achieves (services/scheduler.py).
use telegram_bot_new_version.Scheduler.Poll.{
  get_timer, delete_timer, Round, close_branch, last_activity_of, check_timeout, timer_key,
}
use telegram_bot_new_version.Scheduler.Termination.{
  terminate_match_unified, Call, try_acquire_match_lock,
}
use telegram_bot_new_version.Scheduler.Store.{
  claim_ttl, close_after, Timer, Store, set_nx, held, Lock,
}
use telegram_bot_new_version.Prelude.{
  ◌==◌, if◌then◌else◌, ℕ, ◌-◌, ◌≤◌, ◌≡◌, false, none, some, [], arith, refl, List, ◌∷◌,
}
use telegram_bot_new_version.Prelude.Table.{delete_by, find}

get_timer-delete : (id : ℕ) (s : Store) → get_timer id (delete_timer id s) ≡ none
unfolding find delete_by
get_timer-delete id s = timers-delete id s.timers
  where
    timers-delete :
        (id : ℕ) (ts : List Timer) → find timer_key id (delete_by (λ t. t.id == id) ts) ≡ none
    timers-delete id [] = refl
    timers-delete id (t ∷ ts) = ground (arith, timers-delete id ts)

-- A call that does not wait and finds the lock held changes nothing.
denied-eq :
    (c : Call) (id now : ℕ) (later : List ℕ) (s : Store)
    → c.is_manual ≡ false
    → c.readings ≡ now ∷ later
    → (l : Lock) → held now id s.locks ≡ some l
    → terminate_match_unified c id s ≡ (s, false, [])
unfolding terminate_match_unified try_acquire_match_lock set_nx
denied-eq c id now later s auto e l busy = rw (auto, e) (ground arith)

module _ (r : Round) (id : ℕ) (s : Store) (t : Timer) (tracked : get_timer id s ≡ some t)
    (idle : close_after ≤ r.now - last_activity_of t) (claimable : r.claim_fails ≡ false)
    (unclaimed : held r.now id s.claims ≡ none) where
  abbrev claimed : Store
  claimed = record s { claims = (set_nx r.now claim_ttl id 1 s.claims).0 }

  check-close : check_timeout r id s ≡ close_branch r id s
  unfolding check_timeout
  check-close = ground (arith, tracked, idle)

  check-claimed : close_branch r id s ≡ (
      if r.close_fails
      then (record s { claims = delete_by (λ l. l.id == id) claimed.claims }, [])
      else (
        delete_timer id (terminate_match_unified r.call id claimed).0,
        (terminate_match_unified r.call id claimed).2,
      ))
  unfolding close_branch set_nx
  check-claimed = ground (arith, claimable, unclaimed)

  -- After 24 hours without activity, where the loop can claim the match and another call holds its lock:
  -- the match stays as it is, nobody is told, and its timer is deleted all the same, so that no later
  -- round looks at it.
  pub timer_lost :
      (now : ℕ) (later : List ℕ)
      → r.call.is_manual ≡ false
      → r.call.readings ≡ now ∷ later
      → (l : Lock) → held now id s.locks ≡ some l
      → r.close_fails ≡ false
      → let (s', told) = check_timeout r id s in
        (s'.matches ≡ s.matches) × (told ≡ []) × (get_timer id s' ≡ none)
  timer_lost now later auto e l busy works =
      let d = denied-eq r.call id now later claimed auto e l busy in
      rw (check-close, check-claimed, works) (ground (arith, d, get_timer-delete id claimed))
