-- ===== src/Tests/Middlewares.antt =====
-- The middlewares (bot/middlewares).
use telegram_bot_new_version.Middlewares.StateLock.{Fsm, blocked}
use telegram_bot_new_version.Matching.Queue.{Redis, UserState, Status}
use telegram_bot_new_version.Matching.Keys.{QueueKey}
use telegram_bot_new_version.Middlewares.AntiSpam.{Key, throttle, EventType, Entry, is_set, of_user}
use telegram_bot_new_version.Prelude.{List, some, [], ◌∷◌, false, none, true, ◌≡◌, arith, refl}
use telegram_bot_new_version.Middlewares.AntiSpam.Spaced.{throttle_spaced, Passing}
use telegram_bot_new_version.Middlewares.LockTables.{
  locked, anonymous_chat_active, waiting_in_queue,
}

-- Bob is in his match, and has just done something.
abbrev chatting : Fsm
chatting = record {
  state = some (locked anonymous_chat_active);
  entered_at = some 1000;
  tracked_state = some anonymous_chat_active;
}

abbrev empty_queue : Redis
empty_queue = record { states = []; entries = []; blocks = λ a b. false }

abbrev global_key : QueueKey
global_key = record { province = "global"; gender = "female"; wants = "any" }

-- Carol waits in the queue.
abbrev carol_state : UserState
carol_state = record {
  tg_id = 3;
  queue_key = global_key;
  status = Status.queuing;
  matched_with = none;
  age = 28;
  min_age_filter = 18;
  max_age_filter = 99;
  interests = [];
  has_location = true;
}

abbrev queue_of_carol : Redis
queue_of_carol = record {
  states = carol_state ∷ [];
  entries = record { key = global_key; id = 3 } ∷ [];
  blocks = λ a b. false;
}

abbrev in_queue : Fsm
in_queue = record {
  state = some (locked waiting_in_queue);
  entered_at = some 1000;
  tracked_state = some waiting_in_queue;
}

abbrev of_bob : Key
of_bob = record { user_id = 2; kind = EventType.message }

abbrev of_carol : Key
of_carol = record { user_id = 3; kind = EventType.message }

abbrev after_bob : List Entry
after_bob = (throttle true 700 1000 (of_user of_bob) []).0

throttle_spaced_example :
    throttle true 700 1500 (of_user of_bob) (throttle true 700 1200 (of_user of_carol) after_bob).0
    ≡ ((throttle true 700 1200 (of_user of_carol) after_bob).0, false)
unfolding throttle telegram_bot_new_version.Middlewares.AntiSpam.set_nx is_set
throttle_spaced_example =
    throttle_spaced 700 2000 1000 1500 of_bob ([])
      (throttle true 700 1200 (of_user of_carol) after_bob).0 refl refl
      (Passing.throttled true 1200 (of_user of_carol) Passing.start) (omega arith)
