-- ===== src/Tests/Workers.antt =====
-- The workers (services/scheduler.py).
use telegram_bot_new_version.Matching.Keys.{QueueKey}
use telegram_bot_new_version.Matching.Queue.{Status, UserState, Redis}
use telegram_bot_new_version.Prelude.{length, ◌≤◌, true, false, none, some, [], ◌∷◌}

abbrev global_key : QueueKey
global_key = record { province = "global"; gender = "female"; wants = "any" }

abbrev carol_state : UserState
carol_state = record {
  tg_id = 3;
  queue_key = global_key;
  status = Status.queuing;
  matched_with = none;
  age = 28;
  min_age_filter = 18;
  max_age_filter = 99;
  interests = [];
  has_location = true;
}

abbrev dora_state : UserState
dora_state = record carol_state { tg_id = 4; status = Status.matched; matched_with = some 1 }

-- Carol waits in the queue, Dora is in a match that the database does not know.
abbrev redis : Redis
redis = record {
  states = carol_state ∷ dora_state ∷ [];
  entries = record { key = global_key; id = 3 } ∷ [];
  blocks = λ a b. false;
}
