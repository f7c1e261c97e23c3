-- ===== src/Scheduler/Race.antt =====
-- Several callers of `terminate_match_unified` (services/scheduler.py) side by side: the polling loop,
-- the workers and the buttons. A step is one command to Redis or to the database, so that locks can
-- expire under their holders. `job i` is the match that caller `i` is to end, and `i` its token.
use telegram_bot_new_version.Models.Social.{MatchHistory}
use telegram_bot_new_version.Scheduler.Termination.{post_termination_side_effects}
use telegram_bot_new_version.Scheduler.Store.{
  match_lock_ttl, Store, set_nx, unlock, is_open, atomic_deactivate_match,
}
use telegram_bot_new_version.Prelude.{ℕ, ◌+◌, ◌≡◌, Bool, true, false, none, some}
use telegram_bot_new_version.Prelude.Table.{at}

-- How a call ended. `failed` and `broken` are exceptions, after the UPDATE and in it.
pub data Outcome : Type 0 where
  won lost denied failed broken : Outcome

-- Where a caller stands.
pub data Pc : Type 0 where
  waiting locked : Pc
  ended : MatchHistory → Pc
  leaving gone : Outcome → Pc

pub record System : Type 0 where
  pub now : ℕ
  pub store : Store
  pub pc : ℕ → Pc

-- The caller whose UPDATE wrote the row.
abbrev pub outcome_ended : Outcome → Bool
outcome_ended won = true
outcome_ended failed = true
outcome_ended _ = false

abbrev pub has_ended : Pc → Bool
has_ended (ended m) = true
has_ended (leaving o) = outcome_ended o
has_ended (gone o) = outcome_ended o
has_ended _ = false

module _ (job : ℕ → ℕ) where
  pub data Step (s : System) : System → Type 0 where
    tick : (n : ℕ) → Step s (record s { now = s.now + n })
    acquire :
        (i : ℕ)
        → s.pc i ≡ waiting
        → (set_nx s.now match_lock_ttl (job i) i s.store.locks).1 ≡ true
        → Step s (record s {
          store = record s.store {
            locks = (set_nx s.now match_lock_ttl (job i) i s.store.locks).0;
          };
          pc = at i locked s.pc;
        })
    give_up :
        (i : ℕ)
        → s.pc i ≡ waiting
        → (set_nx s.now match_lock_ttl (job i) i s.store.locks).1 ≡ false
        → Step s (record s { pc = at i (gone denied) s.pc })
    win :
        (i : ℕ) (m : MatchHistory)
        → s.pc i ≡ locked
        → (atomic_deactivate_match s.now (job i) s.store.matches).1 ≡ some m
        → Step s (record s {
          store = record s.store {
            matches = (atomic_deactivate_match s.now (job i) s.store.matches).0;
          };
          pc = at i (ended m) s.pc;
        })
    lose :
        (i : ℕ)
        → s.pc i ≡ locked
        → (atomic_deactivate_match s.now (job i) s.store.matches).1 ≡ none
        → Step s (record s { pc = at i (leaving lost) s.pc })
    break_off : (i : ℕ) → s.pc i ≡ locked → Step s (record s { pc = at i (leaving broken) s.pc })
    tell :
        (i : ℕ) (m : MatchHistory)
        → s.pc i ≡ ended m
        → Step s (record s {
          store = record s.store { waiters = (post_termination_side_effects m s.store.waiters).0 };
          pc = at i (leaving won) s.pc;
        })
    fail :
        (i : ℕ) (m : MatchHistory)
        → s.pc i ≡ ended m
        → Step s (record s { pc = at i (leaving failed) s.pc })
    release :
        (i : ℕ) (o : Outcome)
        → s.pc i ≡ leaving o
        → Step s (record s {
          store = record s.store { locks = unlock s.now (job i) i s.store.locks };
          pc = at i (gone o) s.pc;
        })

  -- Every caller is about to try, whatever locks there are.
  pub data Reach (store : Store) (now : ℕ) : System → Type 0 where
    start : Reach store now (record { now = now; store = store; pc = λ i. waiting })
    later : {s t : System} → Reach store now s → Step s t → Reach store now t

  -- The caller whose UPDATE wrote a row has closed its match, and no other has written that row.
  pub record IsSettled (s : System) : Type 0 where
    pub closed : (i : ℕ) → has_ended (s.pc i) ≡ true → is_open (job i) s.store.matches ≡ false
    pub unique :
        (i j : ℕ) → has_ended (s.pc i) ≡ true → has_ended (s.pc j) ≡ true → job i ≡ job j → i ≡ j
