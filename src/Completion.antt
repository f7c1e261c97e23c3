-- ===== src/Completion.antt =====
-- services/profile_completion.py: `class ProfileCompletionService`. `reward` is the setting
-- PROFILE_COMPLETION_REWARD.
pub mod Reward
use telegram_bot_new_version.Models.{Db}
use telegram_bot_new_version.Session.{get_user_by_tg_id, write_user, add_coin_transaction}
use telegram_bot_new_version.Referral.{truthy}
use telegram_bot_new_version.Models.Users.{User}
use telegram_bot_new_version.Models.Social.{Step, ProfileCompletionLog}
use telegram_bot_new_version.Models.Coins.{CoinTransaction, profile_complete, profile_completion}
use telegram_bot_new_version.Prelude.{
  ◌==◌, if◌then◌else◌, is_some, count_if, keep_if, ℕ, ◌*◌, ◌/◌, Bool, true, false, Option, none,
  some, List, [], ◌∷◌, ◌++◌,
}
use telegram_bot_new_version.Prelude.Table.{find_by, update_by}
use telegram_bot_new_version.Prelude.Int.{◌+ℤ◌, pos}

abbrev pub required_steps : List Step
required_steps = Step.city ∷ Step.photo ∷ Step.gps ∷ Step.tags ∷ Step.bio ∷ []

abbrev pub all_steps : List Step
all_steps = required_steps ++ (Step.voice ∷ [])

abbrev step_number : Step → ℕ
step_number Step.city = 0
step_number Step.photo = 1
step_number Step.gps = 2
step_number Step.tags = 3
step_number Step.bio = 4
step_number Step.voice = 5

abbrev pub is_log : ℕ → Step → ProfileCompletionLog → Bool
is_log tg_id step row =
    if row.user_tg_id == tg_id then step_number row.step_code == step_number step else false

unfoldable pub set_completed_at : ℕ → ProfileCompletionLog → ProfileCompletionLog
set_completed_at now row = record row { completed_at = now }

unfoldable pub is_step_done : ℕ → Step → Db → Bool
is_step_done tg_id step d = is_some (find_by (is_log tg_id step) d.completion_logs)

unfoldable pub mark_step_done : (now tg_id : ℕ) → Step → Db → Db
unfolding is_step_done set_completed_at
mark_step_done now tg_id step d =
    if is_step_done tg_id step d
    then record d {
      completion_logs = update_by (is_log tg_id step) (set_completed_at now) d.completion_logs;
    }
    else record d {
      completion_logs =
          record { user_tg_id = tg_id; step_code = step; completed_at = now } ∷ d.completion_logs;
    }

-- What the fields of the user say of a step.
unfoldable pub field_done : Step → User → Bool
field_done Step.city u = truthy u.city
field_done Step.photo u = truthy u.profile_photo_file_id
field_done Step.gps u = u.has_location
field_done Step.tags u = truthy u.tags
field_done Step.bio u = truthy u.bio
field_done Step.voice u = truthy u.profile_voice_file_id

unfoldable pub step_done : User → Db → Step → Bool
unfolding is_step_done field_done
step_done u d step = if is_step_done u.tg_id step d then true else field_done step u

unfoldable pub required_done : User → Db → ℕ
required_done u d = count_if (step_done u d) required_steps

-- The first step in a list that is not done.
unfoldable pub first_missing : User → Db → List Step → Option Step
first_missing u d [] = none
first_missing u d (s ∷ ss) =
    let rest = first_missing u d ss in if step_done u d s then rest else some s

-- The answer for a missing user has no key `is_complete`.
pub record CompletionState : Type 0 where
  pub done : List Step
  pub pct : ℕ
  pub next_step : Option Step
  pub is_complete : Option Bool

unfoldable pub completion_state : User → Db → CompletionState
unfolding required_done first_missing
completion_state u d = record {
  done = keep_if (step_done u d) all_steps;
  pct = required_done u d * 100 / 5;
  next_step = first_missing u d all_steps;
  is_complete = some (required_done u d == 5);
}

unfoldable pub get_completion_state : ℕ → Db → CompletionState
unfolding completion_state
get_completion_state tg_id d = elim (get_user_by_tg_id tg_id d) [
  | none ↦ record { done = []; pct = 0; next_step = some Step.city; is_complete = none }
  | some u ↦ completion_state u d
]

unfoldable pub set_pct : ℕ → User → User
set_pct pct u = record u { profile_completion_pct = pct }

unfoldable pub refresh_completion_pct : ℕ → Db → Db × ℕ
unfolding set_pct get_completion_state
refresh_completion_pct tg_id d =
    let pct = (get_completion_state tg_id d).pct in (write_user tg_id (set_pct pct) d, pct)

unfoldable pub reward_user : ℕ → User → User
reward_user reward u = record u {
  coin_balance = u.coin_balance +ℤ pos reward;
  total_earned_coins = u.total_earned_coins +ℤ pos reward;
  profile_completion_rewarded = true;
  profile_completion_pct = 100;
}

unfoldable pub reward_entry : ℕ → ℕ → CoinTransaction
reward_entry reward tg_id = record {
  user_id = tg_id;
  amount = pos reward;
  description = profile_complete;
  reference_id = none;
  tx_type = profile_completion;
}

unfoldable pub try_award_completion_reward : (reward tg_id : ℕ) → Db → Db × Option ℕ
unfolding completion_state reward_user reward_entry
try_award_completion_reward reward tg_id d = elim (get_user_by_tg_id tg_id d) [
  | none ↦ (d, none)
  | some u ↦
      if u.profile_completion_rewarded
      then (d, none)
      else if required_done u d == 5
      then (
        add_coin_transaction (reward_entry reward tg_id) (write_user tg_id (reward_user reward) d),
        some reward,
      )
      else (d, none)
]
