-- ===== src/Scheduler/Store.antt =====
-- What DatingScheduler (services/scheduler.py) keeps in Redis, the matches of the database, and the
-- Redis commands it uses. Times are microseconds since the epoch, as `timestamp()` gives them.
use telegram_bot_new_version.Matches.{end_row}
use telegram_bot_new_version.Models.Social.{MatchHistory}
use telegram_bot_new_version.Prelude.{
  ltb, ◌==◌, if◌then◌else◌, is_some, ℕ, ◌+◌, ◌*◌, ◌≡◌, refl, Bool, true, false, Option, none, some,
  List, ◌∷◌, arith,
}
use telegram_bot_new_version.Prelude.Table.{find_by, delete_by, find, update, find-update}

abbrev pub seconds : ℕ → ℕ
seconds n = n * 1000000

-- _MATCH_LOCK_TTL_MS, and the life of a claim of the polling loop.
abbrev pub match_lock_ttl : ℕ
match_lock_ttl = seconds 10

abbrev pub claim_ttl : ℕ
claim_ttl = seconds 300

abbrev pub warn_after : ℕ
warn_after = seconds 43200

abbrev pub close_after : ℕ
close_after = seconds 86400

-- A key with a life: `lock:match_term:<id>` or `date:timeout_claim:<id>`, and its value.
pub record Lock : Type 0 where
  pub id : ℕ
  pub token : ℕ
  pub expires_at : ℕ

-- The hash `date:timeout:<id>`. A field that is not set is `none`; `warned` holds whether it is "1".
pub record Timer : Type 0 where
  pub id : ℕ
  pub last_activity : Option ℕ
  pub partners : Option (ℕ × ℕ)
  pub warned : Option Bool

-- A member of the set `user:<target>:waitlist`.
pub record Waiter : Type 0 where
  pub target : ℕ
  pub id : ℕ

pub record Store : Type 0 where
  pub matches : List MatchHistory
  pub locks : List Lock
  pub claims : List Lock
  pub timers : List Timer
  pub waiters : List Waiter

-- A message of the bot: to a waiting user that the target is free, or the reminder after 12 hours.
pub data Message : Type 0 where
  target_free : (to target : ℕ) → Message
  reminder : (to : ℕ) → Message

abbrev pub is_live : ℕ → ℕ → Lock → Bool
is_live now id l = if l.id == id then ltb now l.expires_at else false

abbrev pub held : ℕ → ℕ → List Lock → Option Lock
held now id locks = find_by (is_live now id) locks

-- SET key token NX PX ttl
unfoldable pub set_nx : ℕ → ℕ → ℕ → ℕ → List Lock → List Lock × Bool
set_nx now ttl id token locks = elim (held now id locks) [
  | none ↦ (
    record { id = id; token = token; expires_at = now + ttl } ∷ delete_by (λ l. l.id == id) locks,
    true,
  )
  | some l ↦ (locks, false)
]

-- _UNLOCK_LUA: the key is deleted only while it holds the token.
unfoldable pub unlock : ℕ → ℕ → ℕ → List Lock → List Lock
unlock now id token locks =
    delete_by (λ l. if is_live now id l then l.token == token else false) locks

abbrev pub match_key : MatchHistory → ℕ
match_key m = m.id

abbrev pub get_match : ℕ → List MatchHistory → Option MatchHistory
get_match id ms = find match_key id ms

abbrev pub is_open : ℕ → List MatchHistory → Bool
is_open id ms = elim (get_match id ms) [ none ↦ false | some m ↦ m.is_active ]

-- UPDATE … SET is_active = False WHERE id AND is_active, and the row that the SELECT after it reads.
unfoldable pub atomic_deactivate_match :
    ℕ → ℕ → List MatchHistory → List MatchHistory × Option MatchHistory
atomic_deactivate_match now id ms = elim (get_match id ms) [
  | none ↦ (ms, none)
  | some m ↦
      if m.is_active
      then (update match_key id (end_row now) ms, some (end_row now m))
      else (ms, none)
]

-- One row is ended, by its id, and only if it was active.
pub is_open-deactivate :
    (now id j : ℕ) (ms : List MatchHistory)
    → is_open j (atomic_deactivate_match now id ms).0 ≡ (if id == j then false else is_open j ms)
unfolding atomic_deactivate_match
is_open-deactivate now id j ms =
    ground (arith, find-update match_key j id (end_row now) ms (λ m. refl))

-- The row is given exactly where the match was active.
pub deactivate-row :
    (now id : ℕ) (ms : List MatchHistory)
    → is_some (atomic_deactivate_match now id ms).1 ≡ is_open id ms
unfolding atomic_deactivate_match
deactivate-row now id ms = ground arith
