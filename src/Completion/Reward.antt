-- ===== src/Completion/Reward.antt =====
-- services/profile_completion.py: the reward is paid once, for a complete profile, through the log.
use telegram_bot_new_version.Completion.{
  is_log, set_completed_at, is_step_done, mark_step_done, required_done, first_missing,
  completion_state, reward_user, reward_entry, try_award_completion_reward,
}
use telegram_bot_new_version.Models.{Db}
use telegram_bot_new_version.Session.{get_user_by_tg_id}
use telegram_bot_new_version.Models.Users.{User}
use telegram_bot_new_version.Models.Social.{Step}
use telegram_bot_new_version.Session.Ledger.{IsAudited, post-IsAudited, get_user-write_user}
use telegram_bot_new_version.Prelude.{
  is_some, Option-cases, length, count_if, keep_if, ℕ, ◌≤◌, ◌≡◌, refl, ◌↔◌, inl, inr, true, false,
  none, some, arith, if◌then◌else◌,
}
use telegram_bot_new_version.Prelude.Table.{
  find_by, update_by, count-none, count-found, find-counted, count-update_by,
}
use telegram_bot_new_version.Prelude.Int.{int_laws}

-- Marking a step, however often, keeps one row for the user and the step, if there was at most one,
-- and the step is then done.
pub mark_step_done-once :
    (now k : ℕ) (step : Step) (d : Db)
    → count_if (is_log k step) d.completion_logs ≤ 1
    → let d' = mark_step_done now k step d in
      (count_if (is_log k step) d'.completion_logs ≡ 1) × (is_step_done k step d' ≡ true)
unfolding mark_step_done count_if is_step_done set_completed_at find_by
mark_step_done-once now k step d one =
    let rows = d.completion_logs in
    let p = is_log k step in
    let kept = count-update_by p p (set_completed_at now) rows (λ r. refl) in
    elim (Option-cases (find_by p rows)) [
      | inl e ↦ ground (arith, count-none p rows)
      | inr (r, e) ↦ ground (
        arith,
        kept,
        count-found p rows,
        find-counted p (update_by p (set_completed_at now) rows),
      )
    ]

module _ (reward k : ℕ) (d : Db) where
  -- The reward goes to the coin balance and to the log.
  pub try_award-IsAudited :
      (j : ℕ) → IsAudited j d → IsAudited j (try_award_completion_reward reward k d).0
  unfolding try_award_completion_reward
  try_award-IsAudited j h = elim (Option-cases (get_user_by_tg_id k d)) [
    | inl e ↦ ground arith
    | inr (u, e) ↦ ground (
      arith,
      post-IsAudited k (reward_user reward) d (λ v. refl) j (reward_entry reward k) refl
          (rw e (λ n. cc)) (λ v. refl) (λ v e' s. omega int_laws) h,
    )
  ]

  -- A reward is given exactly to a user who exists, has not had it, and has done all five required
  -- steps; after one that was given a second request, whatever the reward is by then, gives none and
  -- changes nothing, and after one that was not it goes as the first would.
  pub awarded_once :
      (later : ℕ)
      → let (d', given) = try_award_completion_reward reward k d in
        ((given ≡ some reward) ↔ (
          (u : User) × (get_user_by_tg_id k d ≡ some u)
          × (u.profile_completion_rewarded ≡ false)
          × (required_done u d ≡ 5)))
        × (try_award_completion_reward later k d'
            ≡ (if is_some given then (d', none) else try_award_completion_reward later k d))
  unfolding try_award_completion_reward
  awarded_once later = elim (Option-cases (get_user_by_tg_id k d)) [
    | inl e ↦ ((λ g. absurd (ground arith), λ known. absurd (ground arith)), ground arith)
    | inr (u, e) ↦ (
      (λ g. (u, e, ground arith, ground arith), λ known. ground arith),
      ground (arith, get_user-write_user k (reward_user reward) d (λ v. refl) k),
    )
  ]

-- The percentage of a known user is at most 100, and is 100 exactly for a complete profile; the next
-- step is missing exactly when all six steps are done.
pub completion_state_lem :
    (u : User) (d : Db)
    → let s = completion_state u d in
      (s.pct ≤ 100)
      × ((s.pct ≡ 100) ↔ (s.is_complete ≡ some true))
      × ((s.next_step ≡ none) ↔ (length s.done ≡ 6))
unfolding completion_state required_done first_missing count_if keep_if
completion_state_lem u d = ground arith
