-- ===== src/Vip/Expiry.antt =====
-- `expire_due_subscriptions` of services/vip_subscription.py.
use telegram_bot_new_version.Vip.{other_active}
use telegram_bot_new_version.Models.Social.{VipSubscription}
use telegram_bot_new_version.Prelude.{◌==◌, if◌then◌else◌, ℕ, Bool, true, false, List, [], ◌∷◌}

-- A due subscription of the user that no other active one outlives.
unfoldable pub loses_vip : ℕ → List VipSubscription → List VipSubscription → Bool
loses_vip j subs [] = false
loses_vip j subs (s ∷ due) =
    if s.user_tg_id == j
    then (if other_active subs s then loses_vip j subs due else true)
    else loses_vip j subs due
