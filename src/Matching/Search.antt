-- ===== src/Matching/Search.antt =====
-- `find_match` of services/matching_engine.py.
use text.Mathlib.Text.{◌==◌ as str_eq}
use telegram_bot_new_version.Matching.Keys.{QueueKey, get_target_queue_keys}
use telegram_bot_new_version.Matching.Queue.{
  UserState, Waiting, Redis, state_key, get_state, lrem_all, lrem_one, queue, Caller, add_to_queue,
  matched, Status,
}
use telegram_bot_new_version.Prelude.{
  leb, ◌==◌, if◌then◌else◌, length, take, drop, ℕ, zero, suc, ◌+◌, ◌/◌, String, Bool, true, false,
  not, ◌&&◌, ◌||◌, Option, none, some, List, [], ◌∷◌,
}
use telegram_bot_new_version.Prelude.Table.{delete_by, update}

-- Whether a list of texts holds one, and whether two lists share one.
unfoldable pub has_text : String → List String → Bool
has_text t [] = false
has_text t (s ∷ ss) = if str_eq t s then true else has_text t ss

unfoldable pub share_text : List String → List String → Bool
unfolding has_text
share_text [] ts = false
share_text (s ∷ ss) ts = if has_text s ts then true else share_text ss ts

abbrev pub between : ℕ → ℕ → ℕ → Bool
between low n high = leb low n && leb n high

abbrev pub is_empty : List String → Bool
is_empty [] = true
is_empty (t ∷ ts) = false

-- `int(caller_max_age or 99)`
abbrev pub top_age : ℕ → ℕ
top_age n = if n == 0 then 99 else n

-- `if is_vip and caller_interests: …`
unfoldable pub interests_fit : Caller → UserState → Bool
unfolding share_text
interests_fit c u =
    if c.is_vip && not (is_empty c.interests)
    then is_empty u.interests || share_text c.interests u.interests
    else true

-- The filters on ages, interests and blocks.
unfoldable pub acceptable : Caller → UserState → (ℕ → ℕ → Bool) → Bool
unfolding interests_fit
acceptable c u blocks =
    between c.min_age u.age (top_age c.max_age)
    && (between u.min_age_filter c.age u.max_age_filter
        && (interests_fit c u && not (blocks c.tg_id u.tg_id || blocks u.tg_id c.tg_id)))

-- What the body of the loop does with one candidate: takes it off the queue and goes on, goes on,
-- goes on with one more valid candidate counted, raises NameError, or matches. The name
-- `_haversine_distance`, declared in the class, is not in the scope of the method.
pub data Judgement : Type 0 where
  drop_entry counted name_error : Judgement
  take_user : UserState → Judgement

unfoldable pub judge : Caller → ℕ → Redis → Judgement
unfolding acceptable
judge c id r = if id == c.tg_id then drop_entry else elim (get_state id r) [
  | none ↦ drop_entry
  | some u ↦ elim u.status [
    | Status.matched ↦ drop_entry
    | Status.queuing ↦
        if c.is_nearby_search && c.has_location
        then (if u.has_location then name_error else counted)
        else if acceptable c u r.blocks
        then take_user u
        else counted
  ]
]

unfoldable pub set_matched : ℕ → UserState → UserState
set_matched partner u = record u { status = matched; matched_with = some partner }

-- HSET of the caller: the fields of the match over what is there.
unfoldable pub matched_caller : Caller → ℕ → Option UserState → UserState
matched_caller c partner none = record {
  tg_id = c.tg_id;
  queue_key = c.own_key;
  status = matched;
  matched_with = some partner;
  age = 0;
  min_age_filter = 0;
  max_age_filter = 99;
  interests = [];
  has_location = false;
}
matched_caller c partner (some u) = record u {
  queue_key = c.own_key;
  status = matched;
  matched_with = some partner;
}

-- The transaction of a match.
unfoldable pub match_pair : Caller → QueueKey → ℕ → Redis → Redis
unfolding set_matched matched_caller lrem_all lrem_one
match_pair c key id r =
    let own = matched_caller c id (get_state c.tg_id r) in
    let others = delete_by (λ u. u.tg_id == c.tg_id) r.states in
    lrem_all c.own_key c.tg_id (
      lrem_one key id
        (record r { states = own ∷ update state_key id (set_matched c.tg_id) others }))

pub data Outcome : Type 0 where
  none_yet failed : Outcome
  found : ℕ → Outcome

-- The candidate at hand, where `next` is the rest of the batch: the state and the number of valid
-- candidates so far.
unfoldable pub step_batch :
    Caller
    → QueueKey
    → Waiting
    → Redis
    → ℕ
    → Judgement
    → (Redis → ℕ → Redis × ℕ × Outcome)
    → Redis × ℕ × Outcome
unfolding match_pair
step_batch c key w r n drop_entry next = next (lrem_all key w.id r) n
step_batch c key w r n counted next = next r (suc n)
step_batch c key w r n name_error next = (r, n, failed)
step_batch c key w r n (take_user u) next = (match_pair c key w.id r, n, found w.id)

-- One batch.
unfoldable pub scan_batch : Caller → QueueKey → List Waiting → Redis → ℕ → Redis × ℕ × Outcome
unfolding judge step_batch
scan_batch c key [] r n = (r, n, none_yet)
scan_batch c key (w ∷ ws) r n =
    step_batch c key w r n (judge c w.id r) (λ r' n'. scan_batch c key ws r' n')

-- A search that has not ended goes on.
unfoldable pub go_on : Redis → Outcome → (Redis → Redis × Outcome) → Redis × Outcome
go_on r none_yet next = next r
go_on r failed next = (r, failed)
go_on r (found id) next = (r, found id)

abbrev pub batch_size : ℕ
batch_size = 50

-- A batch that has been read, where `next` is the rest of the queue; an empty one ends the queue.
unfoldable pub search_batch :
    Caller → QueueKey → List Waiting → Redis → ℕ → (Redis → ℕ → Redis × Outcome) → Redis × Outcome
unfolding scan_batch go_on
search_batch c key [] r n next = (r, none_yet)
search_batch c key (w ∷ ws) r n next =
    let (r', n', outcome) = scan_batch c key (w ∷ ws) r n in go_on r' outcome (λ x. next x n')

-- `for offset in range(0, MAX_SCAN_LIMIT, BATCH_SIZE)`: `left` batches are still to come. The queue is
-- read again for each, so entries that were taken off shift the rest.
unfoldable pub scan_queue : Caller → QueueKey → (left offset : ℕ) → Redis → ℕ → Redis × Outcome
unfolding search_batch
scan_queue c key zero offset r n = (r, none_yet)
scan_queue c key (suc left) offset r n =
    if leb 100 n
    then (r, none_yet)
    else search_batch c key (take batch_size (drop offset (queue key r))) r n
        (λ x m. scan_queue c key left (offset + batch_size) x m)

-- The number of batches of a queue of this length, of which the first 1000 entries are read.
abbrev pub batches : ℕ → ℕ
batches n = (if leb n 1000 then n + 49 else 1049) / batch_size

unfoldable pub scan_keys : Caller → List QueueKey → Redis → Redis × Outcome
unfolding scan_queue go_on
scan_keys c [] r = (r, none_yet)
scan_keys c (k ∷ ks) r =
    let (r', outcome) = scan_queue c k (batches (length (queue k r))) 0 r 0 in
    go_on r' outcome (λ x. scan_keys c ks x)

-- The partner, or `none_yet` with the caller put into the queue.
unfoldable pub find_match : Caller → Redis → Redis × Outcome
unfolding scan_keys go_on
find_match c r =
    let (r', outcome) = scan_keys c (get_target_queue_keys c.own_key) r in
    go_on r' outcome (λ x. (add_to_queue c x, none_yet))

-- `int(partner) if partner else None`
unfoldable pub get_user_match_partner : ℕ → Redis → Option ℕ
get_user_match_partner id r = elim (get_state id r) [ none ↦ none | some u ↦ u.matched_with ]
