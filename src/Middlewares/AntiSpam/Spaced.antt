-- ===== src/Middlewares/AntiSpam/Spaced.antt =====
-- How far apart the updates are that come through (bot/middlewares/anti_spam.py).
use telegram_bot_new_version.Prelude.{
  ℕ, ◌+◌, ◌<◌, String, ◌≡◌, Bool, true, false, none, some, List, arith,
}
use telegram_bot_new_version.Middlewares.AntiSpam.{
  Entry, Key, like, is_my_chat_member, is_set, set_nx, Update, of_user, LikeUpdate, callback_data,
  not_a_callback, throttle, like_rate_limit, starts_with,
}

-- Updates of any users through either middleware, each at a time of its own.
pub data Passing (limit cooldown : ℕ) (es : List Entry) : List Entry → Type 0 where
  start : Passing limit cooldown es es
  throttled :
      {fs : List Entry} (redis_up : Bool) (now : ℕ) (u : Update)
      → Passing limit cooldown es fs
      → Passing limit cooldown es (throttle redis_up limit now u fs).0
  liked :
      {fs : List Entry} (redis_up : Bool) (now : ℕ) (u : LikeUpdate)
      → Passing limit cooldown es fs
      → Passing limit cooldown es (like_rate_limit redis_up cooldown now u fs).0

set_nx-keeps :
    (now life t : ℕ) (k j : Key) (es : List Entry)
    → is_set t k es ≡ true
    → is_set t k (set_nx now life j es).0 ≡ true
unfolding set_nx is_set
set_nx-keeps now life t k j es h = ground arith

throttle-keeps :
    (redis_up : Bool) (limit now t : ℕ) (u : Update) (k : Key) (es : List Entry)
    → is_set t k es ≡ true
    → is_set t k (throttle redis_up limit now u es).0 ≡ true
unfolding throttle
throttle-keeps redis_up limit now t (of_user j) k es h =
    ground (arith, set_nx-keeps now limit t k j es)
throttle-keeps redis_up limit now t _ k es h = h

like-keeps :
    (redis_up : Bool) (cooldown now t : ℕ) (u : LikeUpdate) (k : Key) (es : List Entry)
    → is_set t k es ≡ true
    → is_set t k (like_rate_limit redis_up cooldown now u es).0 ≡ true
unfolding like_rate_limit
like-keeps redis_up cooldown now t not_a_callback k es h = h
like-keeps redis_up cooldown now t (callback_data none cb) k es h = ground arith
like-keeps redis_up cooldown now t (callback_data (some id) cb) k es h =
    ground (arith, set_nx-keeps now cooldown t k (record { user_id = id; kind = like }) es)

Passing-keeps :
    {limit cooldown : ℕ} {es fs : List Entry} (t : ℕ) (k : Key)
    → Passing limit cooldown es fs
    → is_set t k es ≡ true
    → is_set t k fs ≡ true
Passing-keeps t k start h = h
Passing-keeps {limit} t k (throttled redis_up now u p) h =
    throttle-keeps redis_up limit now t u k _ (Passing-keeps t k p h)
Passing-keeps {limit} {cooldown} t k (liked redis_up now u p) h =
    like-keeps redis_up cooldown now t u k _ (Passing-keeps t k p h)

set_nx-sets :
    (now life t : ℕ) (k : Key) (es : List Entry)
    → (set_nx now life k es).1 ≡ true
    → t < now + life
    → is_set t k (set_nx now life k es).0 ≡ true
unfolding set_nx is_set
set_nx-sets now life t k es taken soon = ground arith

-- While Redis answers: after an update of a user that came through the throttle, no update of the same
-- user and the same type comes through within the limit, whatever else passes in between.
pub throttle_spaced :
    (limit cooldown first second : ℕ) (k : Key) (es fs : List Entry)
    → is_my_chat_member k.kind ≡ false
    → (throttle true limit first (of_user k) es).1 ≡ true
    → Passing limit cooldown (throttle true limit first (of_user k) es).0 fs
    → second < first + limit
    → throttle true limit second (of_user k) fs ≡ (fs, false)
unfolding throttle set_nx
throttle_spaced limit cooldown first second k es fs kind passed between soon =
    let left : is_set second k (throttle true limit first (of_user k) es).0 ≡ true =
      ground (arith, kind, set_nx-sets first limit second k es) in
    let held = Passing-keeps second k between left in ground (arith, kind, held)

-- While Redis answers: after a like of a user that came through, no other like of the user comes
-- through within the cooldown, whatever else passes in between.
pub like_spaced :
    (limit cooldown first second id : ℕ) (cb cb' : String) (es fs : List Entry)
    → starts_with cb "like_user_" ≡ true
    → starts_with cb' "like_user_" ≡ true
    → (like_rate_limit true cooldown first (callback_data (some id) cb) es).1 ≡ true
    → Passing limit cooldown
        (like_rate_limit true cooldown first (callback_data (some id) cb) es).0
        fs
    → second < first + cooldown
    → like_rate_limit true cooldown second (callback_data (some id) cb') fs ≡ (fs, false)
unfolding like_rate_limit set_nx
like_spaced limit cooldown first second id cb cb' es fs h h' passed between soon =
    let k : Key = record { user_id = id; kind = like } in
    let left : is_set second k
          (like_rate_limit true cooldown first (callback_data (some id) cb) es).0
        ≡ true =
      ground (arith, h, set_nx-sets first cooldown second k es) in
    let held = Passing-keeps second k between left in ground (arith, h', held)
