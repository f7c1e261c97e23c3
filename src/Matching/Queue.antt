-- ===== src/Matching/Queue.antt =====
-- The Redis state of services/matching_engine.py, `remove_from_queue` and `add_to_queue`. The expiry of
-- a key is left out but for what it leaves: an id in a queue whose state is missing.
use text.Mathlib.Text.{◌==◌ as str_eq}
use telegram_bot_new_version.Matching.Keys.{QueueKey}
use telegram_bot_new_version.Prelude.{
  ◌==◌, if◌then◌else◌, count_if, keep_if, ℕ, String, ◌≡◌, refl, Bool, true, false, ◌&&◌, Option,
  none, some, List, [], ◌∷◌, arith,
}
use telegram_bot_new_version.Prelude.Table.{delete_by, find}

pub data Status : Type 0 where
  queuing matched : Status

-- `user:state:<id>`. A field that is not set reads as its default: age 0, ages from 0 to 99, no interests.
pub record UserState : Type 0 where
  pub tg_id : ℕ
  pub queue_key : QueueKey
  pub status : Status
  pub matched_with : Option ℕ
  pub age : ℕ
  pub min_age_filter : ℕ
  pub max_age_filter : ℕ
  pub interests : List String
  pub has_location : Bool

pub record Waiting : Type 0 where
  pub key : QueueKey
  pub id : ℕ

-- All queues in one list, the newest entry first; LRANGE of a key is the entries of that key.
pub record Redis : Type 0 where
  pub states : List UserState
  pub entries : List Waiting
  pub blocks : ℕ → ℕ → Bool

abbrev pub same_key : QueueKey → QueueKey → Bool
same_key a b = str_eq a.province b.province && (str_eq a.gender b.gender && str_eq a.wants b.wants)

abbrev pub state_key : UserState → ℕ
state_key u = u.tg_id

abbrev pub get_state : ℕ → Redis → Option UserState
get_state id r = find state_key id r.states

abbrev pub is_entry : QueueKey → ℕ → Waiting → Bool
is_entry key id w = if w.id == id then same_key w.key key else false

-- LREM key 0 id
unfoldable pub lrem_all : QueueKey → ℕ → Redis → Redis
lrem_all key id r = record r { entries = delete_by (is_entry key id) r.entries }

-- LREM key 1 id
unfoldable pub delete_first : QueueKey → ℕ → List Waiting → List Waiting
delete_first key id [] = []
delete_first key id (w ∷ ws) =
    let rest = delete_first key id ws in if is_entry key id w then ws else w ∷ rest

unfoldable pub lrem_one : QueueKey → ℕ → Redis → Redis
unfolding delete_first
lrem_one key id r = record r { entries = delete_first key id r.entries }

unfoldable pub queue : QueueKey → Redis → List Waiting
queue key r = keep_if (λ w. same_key w.key key) r.entries

unfoldable pub remove_from_queue : ℕ → Redis → Redis × Bool
unfolding lrem_all
remove_from_queue id r = elim (get_state id r) [
  | none ↦ (r, false)
  | some u ↦ (
    record (lrem_all u.queue_key id r) { states = delete_by (λ v. v.tg_id == id) r.states },
    true,
  )
]

-- What the caller brings, as the arguments of `find_match` and `add_to_queue` give it.
pub record Caller : Type 0 where
  pub tg_id : ℕ
  pub own_key : QueueKey
  pub is_vip : Bool
  pub age : ℕ
  pub min_age : ℕ
  pub max_age : ℕ
  pub interests : List String
  pub has_location : Bool
  pub is_nearby_search : Bool

unfoldable pub waiting_state : Caller → UserState
waiting_state c = record {
  tg_id = c.tg_id;
  queue_key = c.own_key;
  status = queuing;
  matched_with = none;
  age = c.age;
  min_age_filter = c.min_age;
  max_age_filter = if c.max_age == 0 then 99 else c.max_age;
  interests = c.interests;
  has_location = c.has_location;
}

unfoldable pub add_to_queue : Caller → Redis → Redis
unfolding waiting_state lrem_all
add_to_queue c r =
    let cleared = lrem_all c.own_key c.tg_id (remove_from_queue c.tg_id r).0 in
    record cleared {
      states = waiting_state c ∷ cleared.states;
      entries = record { key = c.own_key; id = c.tg_id } ∷ cleared.entries;
    }

count-deleted : (p : Waiting → Bool) (ws : List Waiting) → count_if p (delete_by p ws) ≡ 0
unfolding count_if delete_by
count-deleted p [] = refl
count-deleted p (w ∷ ws) = ground (arith, count-deleted p ws)

-- Who joins the queue waits in it once, in the state `queuing`, whatever state and entries were there
-- before, if text equality finds each part of the key equal to itself.
pub add_to_queue-once :
    (c : Caller) (r : Redis)
    → same_key c.own_key c.own_key ≡ true
    → let r' = add_to_queue c r in
      (count_if (is_entry c.own_key c.tg_id) r'.entries ≡ 1)
      × (get_state c.tg_id r' ≡ some (waiting_state c))
unfolding add_to_queue count_if waiting_state find lrem_all
add_to_queue-once c r own = (
  ground (
    arith,
    own,
    count-deleted (is_entry c.own_key c.tg_id) (remove_from_queue c.tg_id r).0.entries,
  ),
  ground arith,
)
