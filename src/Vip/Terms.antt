-- ===== src/Vip/Terms.antt =====
-- `activate_subscription` of services/vip_subscription.py: the term it gives, and what stays active.
use telegram_bot_new_version.Models.{Db}
use telegram_bot_new_version.Session.{get_user_by_tg_id}
use telegram_bot_new_version.Vip.{
  VipPlan, find_plan, day, active_of, deactivate, subscription, activate_subscription, activated,
  type_error, still_running, new_expiry, grant_vip, start_term,
}
use telegram_bot_new_version.Models.Users.{User}
use telegram_bot_new_version.Models.Time.{DateTime, seconds, without_zone, naive, aware}
use telegram_bot_new_version.Models.Social.{VipSubscription}
use telegram_bot_new_version.Prelude.{
  ltb, ◌==◌, if◌then◌else◌, count_if, ℕ, ◌+◌, ◌*◌, String, ◌≡◌, refl, ◌≢◌, true, Option, none, some,
  List, [], ◌∷◌, arith, Bool-cases, Option-cases, inl, inr,
}
use telegram_bot_new_version.Prelude.Table.{update_by}
use telegram_bot_new_version.Session.Ledger.{get_user-write_user}

-- When a user's term ends, in seconds.
abbrev pub ends_at : User → ℕ
ends_at u = elim u.vip_expires_at [ none ↦ 0 | some e ↦ seconds e ]

-- Where the days of a new plan start: at the end of a term that still runs, or now.
abbrev pub term_start : ℕ → User → ℕ
term_start now u = if u.is_vip then (if ltb now (ends_at u) then ends_at u else now) else now

new_expiry-aware :
    (now days : ℕ) (u : User)
    → ((t : ℕ) → u.vip_expires_at ≢ some (naive t))
    → new_expiry now days u ≡ some (term_start now u + days * day)
unfolding new_expiry still_running
new_expiry-aware now days u zoned = elim (Option-cases u.vip_expires_at) [
  | inl e ↦ ground arith
  | inr (naive t, e) ↦ absurd (zoned t e)
  | inr (aware t, e) ↦ ground arith
]

count-deactivated :
    (k : ℕ) (subs : List VipSubscription)
    → count_if (active_of k) (update_by (active_of k) deactivate subs) ≡ 0
unfolding count_if update_by deactivate
count-deactivated k [] = refl
count-deactivated k (s ∷ subs) = ground (arith, count-deactivated k subs)

count-others :
    (j k : ℕ) (subs : List VipSubscription)
    → j ≢ k
    → count_if (active_of j) (update_by (active_of k) deactivate subs) ≡ count_if (active_of j) subs
unfolding count_if update_by deactivate
count-others j k [] other = refl
count-others j k (s ∷ subs) other = ground (arith, count-others j k subs other)

start_term-one :
    (read_back : DateTime → DateTime) (plans : List VipPlan) (now tg_id : ℕ) (code : String)
    → (order : Option ℕ) (t : ℕ) (d : Db) (j : ℕ)
    → count_if
        (active_of j)
        (start_term read_back plans now tg_id code order t d).0.vip_subscriptions
      ≡ (if j == tg_id then 1 else count_if (active_of j) d.vip_subscriptions)
unfolding start_term subscription count_if
start_term-one read_back plans now tg_id code order t d j = elim (Bool-cases (j == tg_id)) [
  | inl same ↦ ground (arith, count-deactivated tg_id d.vip_subscriptions)
  | inr other ↦ ground (arith, count-others j tg_id d.vip_subscriptions)
]

module _ (read_back : DateTime → DateTime) (plans : List VipPlan) (now tg_id : ℕ) (code : String)
    (order : Option ℕ) (d : Db) where
  -- An activation leaves the user with one active subscription, its own, and leaves every other user's
  -- number of active subscriptions as it was.
  pub activated_one :
      (sub : VipSubscription) (j : ℕ)
      → (activate_subscription read_back plans now tg_id code order d).1 ≡ activated sub
      → count_if
          (active_of j)
          (activate_subscription read_back plans now tg_id code order d).0.vip_subscriptions
        ≡ (if j == tg_id then 1 else count_if (active_of j) d.vip_subscriptions)
  unfolding activate_subscription count_if
  activated_one sub j e = elim (Option-cases (find_plan code plans)) [
    | inl p ↦ ground arith
    | inr (plan, p) ↦ elim (Option-cases (get_user_by_tg_id tg_id d)) [
      | inl q ↦ ground arith
      | inr (u, q) ↦ elim (Option-cases (new_expiry now plan.duration_days u)) [
        | inl x ↦ ground arith
        | inr (t, x) ↦ ground (arith, start_term-one read_back plans now tg_id code order t d j)
      ]
    ]
  ]

  -- For a known plan, a known user whose stored expiry carries its zone, and a driver that keeps the
  -- seconds, an activation makes the user a VIP with five free matches, until the end of the plan's
  -- days counted from the end of a term that still runs, or from now.
  pub activated_term :
      (plan : VipPlan) (u : User)
      → find_plan code plans ≡ some plan
      → get_user_by_tg_id tg_id d ≡ some u
      → ((t : ℕ) → u.vip_expires_at ≢ some (naive t))
      → ((t : DateTime) → seconds (read_back t) ≡ seconds t)
      → (v : User) × (get_user_by_tg_id tg_id
            (activate_subscription read_back plans now tg_id code order d).0
          ≡ some v)
        × (v.is_vip ≡ true)
        × (v.vip_quota ≡ 5)
        × (ends_at v ≡ term_start now u + plan.duration_days * day)
  unfolding activate_subscription start_term grant_vip
  activated_term plan u p e zoned keeps =
      let E : ℕ = term_start now u + plan.duration_days * day in
      (
        grant_vip (read_back (aware E)) u,
        ground (
          arith,
          new_expiry-aware now plan.duration_days u zoned,
          get_user-write_user tg_id (grant_vip (read_back (aware E))) d (λ v. refl) tg_id,
        ),
        refl,
        refl,
        keeps (aware E),
      )

-- On a driver that gives stored times without their zone, a user whose first subscription has been
-- activated cannot renew it while the user is a VIP: the comparison raises TypeError, and the database stays as it was.
pub renewal_refused :
    (plans : List VipPlan) (now later tg_id : ℕ) (code code' : String) (order order' : Option ℕ)
    (d : Db)
    → (sub : VipSubscription)
    → (activate_subscription without_zone plans now tg_id code order d).1 ≡ activated sub
    → (plan : VipPlan) → find_plan code' plans ≡ some plan
    → let d' = (activate_subscription without_zone plans now tg_id code order d).0 in
      activate_subscription without_zone plans later tg_id code' order' d' ≡ (d', type_error)
unfolding activate_subscription start_term grant_vip new_expiry still_running
renewal_refused plans now later tg_id code code' order order' d sub first plan p =
    elim (Option-cases (find_plan code plans)) [
      | inl q ↦ ground arith
      | inr (plan', q) ↦ elim (Option-cases (get_user_by_tg_id tg_id d)) [
        | inl r ↦ ground arith
        | inr (u, r) ↦ elim (Option-cases (new_expiry now plan'.duration_days u)) [
          | inl x ↦ ground arith
          | inr (t, x) ↦
              ground (arith, get_user-write_user tg_id (grant_vip (naive t)) d (λ v. refl) tg_id)
        ]
      ]
    ]
