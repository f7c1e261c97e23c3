-- ===== src/Scheduler/Ended.antt =====
-- What one call of `terminate_match_unified` (services/scheduler.py) does, and what a second one does.
use telegram_bot_new_version.Models.Social.{MatchHistory}
use telegram_bot_new_version.Scheduler.Termination.{
  Call, spin, try_acquire_match_lock, tell_waiters, post_termination_side_effects,
  release_match_lock, terminate_locked, terminate_match_unified,
}
use telegram_bot_new_version.Scheduler.Store.{
  match_lock_ttl, Lock, Timer, Store, set_nx, unlock, is_open, atomic_deactivate_match,
  is_open-deactivate, deactivate-row, held,
}
use telegram_bot_new_version.Prelude.{
  ◌==◌, if◌then◌else◌, Option-cases, keep_if, ℕ, ◌≡◌, refl, inl, inr, true, false, none, List, [],
  ◌∷◌, arith,
}
use telegram_bot_new_version.Prelude.Table.{find_by, delete_by}

deleted-not-held :
    (now id token : ℕ) (locks : List Lock)
    → held now id (unlock now id token (delete_by (λ l. l.id == id) locks)) ≡ none
unfolding unlock delete_by find_by
deleted-not-held now id token [] = refl
deleted-not-held now id token (l ∷ locks) = ground (arith, deleted-not-held now id token locks)

-- The lock that an attempt takes is the one that its token releases.
set_nx-released :
    (now later ttl id token : ℕ) (locks : List Lock)
    → (set_nx now ttl id token locks).1 ≡ true
    → held later id (unlock later id token (set_nx now ttl id token locks).0) ≡ none
unfolding set_nx unlock delete_by find_by
set_nx-released now later ttl id token locks taken = elim (Option-cases (held now id locks)) [
  | inl e ↦ ground (arith, deleted-not-held later id token locks)
  | inr (l, e) ↦ ground arith
]

spin-released :
    (later id token deadline : ℕ) (readings : List ℕ) (locks : List Lock)
    → (spin id token deadline readings locks).1 ≡ true
    → held later id (unlock later id token (spin id token deadline readings locks).0) ≡ none
unfolding spin
spin-released later id token deadline [] locks taken = cc
spin-released later id token deadline (now ∷ readings) locks taken = ground (
  arith,
  set_nx-released now later match_lock_ttl id token locks,
  spin-released later id token deadline readings locks,
)

acquire-released :
    (c : Call) (id : ℕ) (locks : List Lock)
    → (try_acquire_match_lock c id locks).1 ≡ true
    → held c.released_at id (unlock c.released_at id c.token (try_acquire_match_lock c id locks).0)
      ≡ none
unfolding try_acquire_match_lock
acquire-released c id locks taken =
    ground (arith, spin-released c.released_at id c.token c.deadline c.readings locks, taken)

-- A free lock is taken at the first reading of the clock.
acquire-free :
    (c : Call) (id now : ℕ) (later : List ℕ) (locks : List Lock)
    → c.readings ≡ now ∷ later
    → held now id locks ≡ none
    → (try_acquire_match_lock c id locks).1 ≡ true
unfolding try_acquire_match_lock spin set_nx
acquire-free c id now later locks e free = rw e (ground arith)

-- A call that finds the lock free answers whether the match was active, ends that match and no other,
-- and leaves no live lock on it and the timers as they were.
pub terminated :
    (c : Call) (id now : ℕ) (later : List ℕ) (s : Store) (j : ℕ)
    → c.readings ≡ now ∷ later
    → held now id s.locks ≡ none
    → let r = terminate_match_unified c id s in
      (r.1 ≡ is_open id s.matches)
      × (is_open j r.0.matches ≡ (if id == j then false else is_open j s.matches))
      × (held c.released_at id r.0.locks ≡ none)
      × (r.0.timers ≡ s.timers)
unfolding terminate_match_unified terminate_locked release_match_lock
terminated c id now later s j e free =
    let taken = acquire-free c id now later s.locks e free in
    ground (
      arith,
      acquire-released c id s.locks,
      is_open-deactivate c.ended_at id j s.matches,
      deactivate-row c.ended_at id s.matches,
    )

terminate-closes :
    (c : Call) (id : ℕ) (s : Store)
    → (terminate_match_unified c id s).1 ≡ true
    → is_open id (terminate_match_unified c id s).0.matches ≡ false
unfolding terminate_match_unified terminate_locked release_match_lock
terminate-closes c id s won = ground (arith, is_open-deactivate c.ended_at id id s.matches)

terminate-closed :
    (c : Call) (id : ℕ) (s : Store)
    → is_open id s.matches ≡ false
    → let r = terminate_match_unified c id s in
      (r.1 ≡ false) × (r.2 ≡ []) × (r.0.matches ≡ s.matches) × (r.0.waiters ≡ s.waiters)
unfolding terminate_match_unified terminate_locked release_match_lock atomic_deactivate_match
terminate-closed c id s closed = ground arith

-- A match is ended once. After a call that answers true, a further call for it, at any time, of
-- either mode and whatever became of the locks, the claims and the timers meanwhile, answers false,
-- changes no match, and tells nobody.
pub terminate_twice :
    (c c' : Call) (id : ℕ) (s : Store) (locks claims : List Lock) (timers : List Timer)
    → (terminate_match_unified c id s).1 ≡ true
    → let s' = record (terminate_match_unified c id s).0 {
      locks = locks;
      claims = claims;
      timers = timers;
    } in
      let r = terminate_match_unified c' id s' in
      (r.1 ≡ false) × (r.2 ≡ []) × (r.0.matches ≡ s'.matches) × (r.0.waiters ≡ s'.waiters)
terminate_twice c c' id s locks claims timers won =
    terminate-closed c' id _ (terminate-closes c id s won)

nobody_told : (m : MatchHistory) → post_termination_side_effects m [] ≡ ([], [])
unfolding post_termination_side_effects tell_waiters keep_if delete_by
nobody_told m = refl

-- Where nobody waits for a user, a call sends no message at all, whether it ends the match or not, and
-- the timer of the match stays: neither partner is told.
pub terminate_silent :
    (c : Call) (id : ℕ) (s : Store)
    → s.waiters ≡ []
    → let r = terminate_match_unified c id s in (r.2 ≡ []) × (r.0.timers ≡ s.timers)
unfolding terminate_match_unified terminate_locked release_match_lock
terminate_silent c id s nobody =
    elim (Option-cases (atomic_deactivate_match c.ended_at id s.matches).1) [
      | inl e ↦ ground arith
      | inr (m, e) ↦ ground (arith, nobody_told m)
    ]
