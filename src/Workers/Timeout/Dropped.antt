-- ===== src/Workers/Timeout/Dropped.antt =====
-- Who the queue's timeout takes out (services/scheduler.py).
use telegram_bot_new_version.Workers.Timeout.{
  Marker, still_in_ttl, is_queuing, is_late, get_expired_queue_users, process_timeout, process_all,
  process_timeouts,
}
use telegram_bot_new_version.Matching.Queue.{
  UserState, Status, Redis, state_key, get_state, lrem_all, remove_from_queue,
}
use telegram_bot_new_version.Prelude.{
  leb, Bool-cases, length, ℕ, ◌-◌, ◌≤◌, ◌≡◌, refl, inl, inr, true, false, List, [], ◌∷◌, arith,
  ◌==◌, if◌then◌else◌, Option-cases, ◌≢◌, none, some,
}
use telegram_bot_new_version.Prelude.Table.{delete_by, find}

-- Some state of the list has the id, waits, and has outlived its marker.
pub data Late (now : ℕ) (ms : List Marker) (id : ℕ) : List UserState → Type 0 where
  here :
      (u : UserState) (us : List UserState)
      → u.tg_id ≡ id
      → is_queuing u.status ≡ true
      → still_in_ttl now u.tg_id ms ≡ false
      → Late now ms id (u ∷ us)
  there : (u : UserState) (us : List UserState) → Late now ms id us → Late now ms id (u ∷ us)

abbrev pub AllLate : ℕ → List Marker → List UserState → List ℕ → Type 0
AllLate now ms us [] = Unit
AllLate now ms us (id ∷ ids) = Late now ms id us × AllLate now ms us ids

widen :
    (now : ℕ) (ms : List Marker) (u : UserState) (us : List UserState) (ids : List ℕ)
    → AllLate now ms us ids
    → AllLate now ms (u ∷ us) ids
widen now ms u us [] h = tt
widen now ms u us (id ∷ ids) h = (Late.there u us h.0, widen now ms u us ids h.1)

late-parts :
    (now : ℕ) (ms : List Marker) (u : UserState)
    → is_late now ms u ≡ true
    → (is_queuing u.status ≡ true) × (still_in_ttl now u.tg_id ms ≡ false)
unfolding is_late
late-parts now ms u h = ground arith

first-Late :
    (now : ℕ) (ms : List Marker) (u : UserState) (us : List UserState)
    → is_late now ms u ≡ true
    → Late now ms u.tg_id (u ∷ us)
first-Late now ms u us h = let (q, m) = late-parts now ms u h in Late.here u us refl q m

expired-AllLate :
    (now limit : ℕ) (ms : List Marker) (us : List UserState)
    → AllLate now ms us (get_expired_queue_users now limit ms us)
unfolding get_expired_queue_users
expired-AllLate now limit ms [] = tt
expired-AllLate now limit ms (u ∷ us) = elim (Bool-cases (is_late now ms u)) [
  | inl late ↦ elim (Bool-cases (leb limit 1)) [
    | inl last ↦ rw (late, last) (first-Late now ms u us late, tt)
    | inr more ↦
        rw (late, more)
          (first-Late now ms u us late, widen now ms u us _ (expired-AllLate now (limit - 1) ms us))
  ]
  | inr no_late ↦ rw no_late (widen now ms u us _ (expired-AllLate now limit ms us))
]

expired-limit :
    (now limit : ℕ) (ms : List Marker) (us : List UserState)
    → 1 ≤ limit
    → length (get_expired_queue_users now limit ms us) ≤ limit
unfolding get_expired_queue_users
expired-limit now limit ms [] h = omega arith
expired-limit now limit ms (u ∷ us) h = elim (Bool-cases (leb limit 1)) [
  | inl last ↦ ground (arith, expired-limit now limit ms us h)
  | inr more ↦ ground (arith, expired-limit now limit ms us h, expired-limit now (limit - 1) ms us)
]

pub find-delete :
    (id j : ℕ) (us : List UserState)
    → find state_key j (delete_by (λ u. u.tg_id == id) us)
      ≡ (if id == j then none else find state_key j us)
unfolding find delete_by
find-delete id j [] = ground arith
find-delete id j (u ∷ us) = ground (arith, find-delete id j us)

-- The state that is taken away, and the others.
pub get_state-remove :
    (id j : ℕ) (r : Redis)
    → get_state j (remove_from_queue id r).0 ≡ (if id == j then none else get_state j r)
unfolding remove_from_queue lrem_all
get_state-remove id j r = elim (Option-cases (get_state id r)) [
  | inl e ↦ ground arith
  | inr (u, e) ↦ ground (arith, find-delete id j r.states)
]

abbrev pub AllGone : List ℕ → Redis → Type 0
AllGone [] r = Unit
AllGone (id ∷ ids) r = (get_state id r ≡ none) × AllGone ids r

process_all-gone :
    (ids : List ℕ) (j : ℕ) (r : Redis)
    → get_state j r ≡ none
    → get_state j (process_all ids r) ≡ none
unfolding process_all process_timeout
process_all-gone [] j r h = h
process_all-gone (id ∷ ids) j r h =
    process_all-gone ids j (remove_from_queue id r).0 (ground (arith, get_state-remove id j r))

process_all-AllGone : (ids : List ℕ) (r : Redis) → AllGone ids (process_all ids r)
unfolding process_all process_timeout
process_all-AllGone [] r = tt
process_all-AllGone (id ∷ ids) r = (
  process_all-gone ids id (remove_from_queue id r).0 (ground (arith, get_state-remove id id r)),
  process_all-AllGone ids (remove_from_queue id r).0,
)

-- One round takes out at most 50 users: each waited in the queue without a live marker, and has no
-- state afterwards.
pub timed_out :
    (now : ℕ) (ms : List Marker) (r : Redis)
    → let (r', ids) = process_timeouts now ms r in
      AllLate now ms r.states ids × (length ids ≤ 50) × AllGone ids r'
unfolding process_timeouts
timed_out now ms r = (
  expired-AllLate now 50 ms r.states,
  expired-limit now 50 ms r.states (omega arith),
  process_all-AllGone (get_expired_queue_users now 50 ms r.states) r,
)

-- The worker does not look again: a user of its list who has been matched meanwhile loses the state,
-- and the partner stays matched with someone who has none.
pub match_halved :
    (id partner : ℕ) (r : Redis) (v : UserState)
    → partner ≢ id
    → get_state partner r ≡ some v
    → v.status ≡ Status.matched
    → v.matched_with ≡ some id
    → let r' = process_timeout id r in (get_state id r' ≡ none) × (get_state partner r' ≡ some v)
unfolding process_timeout
match_halved id partner r v other found matched with_id =
    ground (arith, get_state-remove id id r, get_state-remove id partner r)
