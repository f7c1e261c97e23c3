-- ===== src/Vip.antt =====
-- services/vip_subscription.py: `load_vip_plans` and `class VIPSubscriptionManager`. The caches that a
-- change invalidates hold no state of their own.
use text.Mathlib.Text.{◌==◌ as str_eq}
pub mod Terms
pub mod Expiry
use telegram_bot_new_version.Models.{Db}
use telegram_bot_new_version.Session.{get_user_by_tg_id, write_user}
use telegram_bot_new_version.Models.Users.{User}
use telegram_bot_new_version.Models.Time.{DateTime, seconds, later_than, aware}
use telegram_bot_new_version.Models.Social.{VipSubscription}
use telegram_bot_new_version.Prelude.{
  ltb, ◌==◌, if◌then◌else◌, is_some, length, keep_if, ℕ, suc, ◌+◌, ◌-◌, ◌*◌, ◌/◌, String, Bool,
  true, false, Option, none, some, List, [], ◌∷◌,
}
use telegram_bot_new_version.Prelude.Table.{find_by, update_by}

pub record VipPlan : Type 0 where
  pub code : String
  pub duration_days : ℕ

-- The plans of bot/core/constants.py, for which `load_vip_plans` falls back when there is no file.
abbrev pub default_plans : List VipPlan
default_plans =
    record { code = "1w"; duration_days = 7 }
    ∷ record { code = "2w"; duration_days = 14 }
    ∷ record { code = "1m"; duration_days = 30 }
    ∷ []

abbrev pub find_plan : String → List VipPlan → Option VipPlan
find_plan code plans = find_by (λ p. str_eq p.code code) plans

-- `activate_subscription`: the three exceptions, or the new row.
pub data Activation : Type 0 where
  unknown_plan user_missing type_error : Activation
  activated : VipSubscription → Activation

abbrev pub day : ℕ
day = 86400

-- `user.is_vip and user.vip_expires_at and user.vip_expires_at > now`; `none` is the TypeError.
unfoldable pub still_running : ℕ → User → Option Bool
still_running now u =
    if u.is_vip
    then elim u.vip_expires_at [ none ↦ some false | some e ↦ later_than e (aware now) ]
    else some false

-- Where the new term ends.
unfoldable pub new_expiry : ℕ → ℕ → User → Option ℕ
unfolding still_running
new_expiry now days u = elim (still_running now u) [
  | none ↦ none
  | some running ↦ elim u.vip_expires_at [
    | none ↦ some (now + days * day)
    | some e ↦ some (if running then seconds e + days * day else now + days * day)
  ]
]

abbrev pub active_of : ℕ → VipSubscription → Bool
active_of tg_id s = if s.user_tg_id == tg_id then s.is_active else false

unfoldable pub deactivate : VipSubscription → VipSubscription
deactivate s = record s { is_active = false }

unfoldable pub grant_vip : DateTime → User → User
grant_vip e u = record u { is_vip = true; vip_expires_at = some e; vip_quota = 5 }

unfoldable pub subscription : ℕ → ℕ → String → ℕ → ℕ → Option ℕ → VipSubscription
subscription id tg_id code now e order = record {
  id = id;
  user_tg_id = tg_id;
  plan_code = code;
  started_at = now;
  expires_at = e;
  payment_order_id = order;
  is_active = true;
}

-- `read_back` is what the driver gives for a stored aware time: some give it without its zone.
module _ (read_back : DateTime → DateTime) (plans : List VipPlan) (now : ℕ) where
  unfoldable pub start_term :
      (tg_id : ℕ) (code : String) (order : Option ℕ) (e : ℕ) → Db → Db × Activation
  unfolding deactivate grant_vip subscription
  start_term tg_id code order e d =
      let sub = subscription d.next_id tg_id code now e order in
      (
        record (write_user tg_id (grant_vip (read_back (aware e))) d) {
          vip_subscriptions = sub ∷ update_by (active_of tg_id) deactivate d.vip_subscriptions;
          next_id = suc d.next_id;
        },
        activated sub,
      )

  unfoldable pub activate_subscription :
      (tg_id : ℕ) (code : String) (order : Option ℕ) → Db → Db × Activation
  unfolding new_expiry
  activate_subscription tg_id code order d = elim (find_plan code plans) [
    | none ↦ (d, unknown_plan)
    | some plan ↦ elim (get_user_by_tg_id tg_id d) [
      | none ↦ (d, user_missing)
      | some u ↦ elim (new_expiry now plan.duration_days u) [
        | none ↦ (d, type_error)
        | some e ↦ start_term tg_id code order e d
      ]
    ]
  ]

module _ (now : ℕ) where
  unfoldable pub is_vip_active : ℕ → Db → Bool
  is_vip_active tg_id d = elim (get_user_by_tg_id tg_id d) [
    | none ↦ false
    | some u ↦
        if u.is_vip
        then elim u.vip_expires_at [ none ↦ false | some e ↦ ltb now (seconds e) ]
        else false
  ]

  -- `max(0, delta.days)`: the floor of a negative difference is negative, so it gives 0.
  unfoldable pub get_remaining_days : ℕ → Db → ℕ
  get_remaining_days tg_id d = elim (get_user_by_tg_id tg_id d) [
    | none ↦ 0
    | some u ↦ elim u.vip_expires_at [ none ↦ 0 | some e ↦ (seconds e - now) / day ]
  ]

  unfoldable pub is_due : VipSubscription → Bool
  is_due s = if s.is_active then ltb s.expires_at now else false

-- The query for another active subscription of the same user. The session does not flush before a
-- query (`autoflush=False` in database/session.py), so it sees the table as it was.
unfoldable pub other_active : List VipSubscription → VipSubscription → Bool
other_active subs s =
    is_some (find_by (λ o. if o.id == s.id then false else active_of s.user_tg_id o) subs)

unfoldable pub drop_vip : User → User
drop_vip u = record u { is_vip = false; vip_quota = 0 }

-- The loop over the due rows.
unfoldable pub expire_users : List VipSubscription → List VipSubscription → Db → Db
unfolding drop_vip
expire_users subs [] d = d
expire_users subs (s ∷ due) d =
    expire_users subs due (if other_active subs s then d else write_user s.user_tg_id drop_vip d)

-- The answer is the number of rows that the loop deactivates.
unfoldable pub expire_due_subscriptions : ℕ → Db → Db × ℕ
unfolding expire_users
expire_due_subscriptions now d =
    let subs = d.vip_subscriptions in
    let due = keep_if (is_due now) subs in
    (
      record (expire_users subs due d) {
        vip_subscriptions = update_by (is_due now) deactivate subs;
      },
      length due,
    )
