-- ===== src/Middlewares/AntiSpam.antt =====
-- `ThrottlingMiddleware` and `LikeRateLimitMiddleware` of bot/middlewares/anti_spam.py. Times and
-- lives are milliseconds; the answers to a user who is too fast are left out.
pub mod Spaced
use text.Mathlib.Text.{starts_with}
use telegram_bot_new_version.Prelude.{
  ltb, ◌==◌, if◌then◌else◌, ℕ, ◌+◌, String, Bool, true, false, not, ◌&&◌, ◌||◌, Option, none, some,
  List, [], ◌∷◌,
}

-- `event_type`; `like` stands for the keys `like_rl:<id>` of the second middleware.
pub data EventType : Type 0 where
  message callback edited_message my_chat_member unknown like : EventType

pub record Key : Type 0 where
  pub user_id : ℕ
  pub kind : EventType

abbrev pub kind_no : EventType → ℕ
kind_no message = 0
kind_no callback = 1
kind_no edited_message = 2
kind_no my_chat_member = 3
kind_no unknown = 4
kind_no like = 5

abbrev pub same_key : Key → Key → Bool
same_key a b = a.user_id == b.user_id && kind_no a.kind == kind_no b.kind

-- A key of Redis and the end of its life. A key whose life is over stays in the list.
pub record Entry : Type 0 where
  pub key : Key
  pub expires_at : ℕ

unfoldable pub is_set : ℕ → Key → List Entry → Bool
is_set now k [] = false
is_set now k (e ∷ es) = (same_key e.key k && ltb now e.expires_at) || is_set now k es

-- SET key 1 PX life NX
unfoldable pub set_nx : (now life : ℕ) → Key → List Entry → List Entry × Bool
unfolding is_set
set_nx now life k es =
    if is_set now k es
    then (es, false)
    else (record { key = k; expires_at = now + life } ∷ es, true)

-- An update as the first middleware reads it: without a user, by a bot, a service message (a pin, a
-- member who comes or goes), or one with a user and a type.
pub data Update : Type 0 where
  no_user by_bot service_message : Update
  of_user : Key → Update

abbrev pub is_my_chat_member : EventType → Bool
is_my_chat_member my_chat_member = true
is_my_chat_member _ = false

-- Whether the handler is called. `redis_up` is whether the command does not raise.
unfoldable pub throttle :
    (redis_up : Bool) (limit now : ℕ) → Update → List Entry → List Entry × Bool
unfolding set_nx
throttle redis_up limit now (of_user k) es =
    if is_my_chat_member k.kind
    then (es, true)
    else if redis_up
    then set_nx now limit k es
    else (es, true)
throttle redis_up limit now _ es = (es, true)

-- A callback with its data, or anything else.
pub data LikeUpdate : Type 0 where
  callback_data : (user : Option ℕ) → String → LikeUpdate
  not_a_callback : LikeUpdate

unfoldable pub like_rate_limit :
    (redis_up : Bool) (cooldown now : ℕ) → LikeUpdate → List Entry → List Entry × Bool
unfolding set_nx
like_rate_limit redis_up cooldown now not_a_callback es = (es, true)
like_rate_limit redis_up cooldown now (callback_data user cb) es =
    if not (starts_with cb "like_user_") then (es, true) else elim user [
      | none ↦ (es, true)
      | some id ↦
          if redis_up
          then set_nx now cooldown (record { user_id = id; kind = like }) es
          else (es, true)
    ]
