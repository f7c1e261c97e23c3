-- ===== src/Tests/Matching.antt =====
-- The matching engine (services/matching_engine.py).
use telegram_bot_new_version.Matching.Search.{find_match}
use telegram_bot_new_version.Matching.Sound.{IsMatched}
use telegram_bot_new_version.Matching.Keys.{QueueKey, get_target_queue_keys}
use telegram_bot_new_version.Matching.Queue.{
  Status, UserState, Redis, get_state, is_entry, Caller, waiting_state, add_to_queue,
  add_to_queue-once, queue,
}
use telegram_bot_new_version.Matching.Partners.{find_match-IsMatched}
use telegram_bot_new_version.Prelude.{
  count_if, ◌≡◌, refl, ◌≢◌, true, false, none, some, [], ◌∷◌, keep_if, take, drop,
}
use telegram_bot_new_version.Prelude.Table.{find}

abbrev key_of_caller : QueueKey
key_of_caller = record { province = "global"; gender = "male"; wants = "female" }

abbrev caller : Caller
caller = record {
  tg_id = 1;
  own_key = key_of_caller;
  is_vip = false;
  age = 30;
  min_age = 18;
  max_age = 40;
  interests = [];
  has_location = true;
  is_nearby_search = false;
}

abbrev candidate_key : QueueKey
candidate_key = record { province = "global"; gender = "female"; wants = "any" }

abbrev waiting : UserState
waiting = record {
  tg_id = 2;
  queue_key = candidate_key;
  status = Status.queuing;
  matched_with = none;
  age = 28;
  min_age_filter = 18;
  max_age_filter = 99;
  interests = [];
  has_location = true;
}

-- One candidate waits, behind an entry whose state is gone.
abbrev redis : Redis
redis = record {
  states = waiting ∷ [];
  entries = record { key = candidate_key; id = 9 } ∷ record { key = candidate_key; id = 2 } ∷ [];
  blocks = λ a b. false;
}

find_match-IsMatched_example :
    IsMatched caller redis.states redis.blocks 2 (find_match caller redis).0
unfolding find_match get_target_queue_keys telegram_bot_new_version.Matching.Queue.queue
    telegram_bot_new_version.Prelude.keep_if telegram_bot_new_version.Prelude.take
    telegram_bot_new_version.Prelude.drop telegram_bot_new_version.Prelude.Table.find
find_match-IsMatched_example = find_match-IsMatched caller redis 2 refl

add_to_queue-once_example :
    let r' = add_to_queue caller redis in
    (count_if (is_entry caller.own_key caller.tg_id) r'.entries ≡ 1)
    × (get_state caller.tg_id r' ≡ some (waiting_state caller))
add_to_queue-once_example = add_to_queue-once caller redis refl
