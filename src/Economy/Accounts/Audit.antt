-- ===== src/Economy/Accounts/Audit.antt =====
-- Accounts are created and registered with their coins in the log, once each.
use telegram_bot_new_version.Prelude.{
  Option-cases, ℕ, String, ◌≡◌, inl, inr, true, false, Option, none, some, List, [], ◌∷◌, arith,
  refl, ◌∙◌, ◌≢◌,
}
use telegram_bot_new_version.Prelude.Table.{map_option}
use telegram_bot_new_version.Economy.Accounts.{
  first_free, create_user, Db, Registration, get_user_by_tg_id, complete_user_registration,
  new_user, start_gift, generic, fill_profile, referral_step, register, invite_reward, profile_info,
  invite_entry, has_deleted_account, reward_invite,
}
use telegram_bot_new_version.Economy.Coins.{Event, debit, credit, process_coin_transaction}
use telegram_bot_new_version.Session.Ledger.{
  IsAudited, insert-IsAudited, get_user-write_user, write_user-IsAudited,
}
use telegram_bot_new_version.Prelude.Int.{pos, ℤ}
use telegram_bot_new_version.Models.Coins.{CoinTransaction, Description}
use telegram_bot_new_version.Session.{write_user}
use telegram_bot_new_version.Economy.Coins.Keeps.{
  process-keeps, process-known, deleted_accounts-process,
}
use telegram_bot_new_version.Models.Users.{User}
use telegram_bot_new_version.Economy.Audit.{IsFair, process-IsAudited}
use telegram_bot_new_version.Economy.Transfer.Exact.{get_user-process}

first_free-fresh :
    (tg_id : ℕ) (ids : List String) (d : Db) (id : String)
    → first_free tg_id ids d ≡ some id
    → get_user_by_tg_id tg_id d ≡ none
unfolding first_free
first_free-fresh tg_id [] d id h = cc
first_free-fresh tg_id (x ∷ ids) d id h = elim (Option-cases (get_user_by_tg_id tg_id d)) [
  | inl e ↦ e
  | inr (u, e) ↦ first_free-fresh tg_id ids d id (ground (arith, e, h))
]

-- A new account starts with three coins that the log explains; a failed creation changes nothing.
pub create_user-IsAudited :
    (tg_id : ℕ) (first_name : String) (username : Option String) (referrer_id : Option ℕ)
    → (shards now : ℕ) (ids : List String) (d : Db) (j : ℕ) → IsAudited j d
    → IsAudited j (create_user tg_id first_name username referrer_id shards now ids d).0
unfolding create_user new_user
create_user-IsAudited tg_id first_name username referrer_id shards now ids d j h =
    elim (Option-cases (first_free tg_id ids d)) [
      | inl e ↦ ground arith
      | inr (id, e) ↦
          let u = new_user tg_id first_name username referrer_id shards id now in
          let t : CoinTransaction = record {
            user_id = tg_id;
            amount = pos 3;
            description = start_gift;
            reference_id = none;
            tx_type = generic;
          } in
          ground (
            arith,
            insert-IsAudited u t d j refl (first_free-fresh tg_id ids d id e) refl (omega arith) h,
          )
    ]

-- `completed_registration` is no coin column.
completed-process :
    (event : Option Event) (k : ℕ) (amount : ℤ) (text : Description) (d : Db) (j : ℕ)
    → map_option
        (λ u. u.completed_registration)
        (get_user_by_tg_id j (process_coin_transaction event k amount text false none d).0)
      ≡ map_option (λ u. u.completed_registration) (get_user_by_tg_id j d)
unfolding debit credit
completed-process event k amount text d j =
    process-keeps (λ u. u.completed_registration) event k amount text false none d j (λ n u. refl)
      (λ n u. refl)

completed-referral_step :
    (event : Option Event) (tg_id : ℕ) (referrer : Option ℕ) (d : Db) (j : ℕ)
    → map_option
        (λ u. u.completed_registration)
        (get_user_by_tg_id j (referral_step event tg_id referrer d).0)
      ≡ map_option (λ u. u.completed_registration) (get_user_by_tg_id j d)
unfolding referral_step
completed-referral_step event tg_id none d j = refl
completed-referral_step event tg_id (some r) d j =
    let paid = (process_coin_transaction event r (pos 5) (invite_reward tg_id) false none d).0 in
    ground (
      arith,
      completed-process event r (pos 5) (invite_reward tg_id) d j,
      completed-process event tg_id (pos 5) invite_entry paid j,
    )

-- A registered user's row says so afterwards.
register-completed :
    (event : Option Event) (tg_id : ℕ) (r : Registration) (u : User) (d : Db)
    → get_user_by_tg_id tg_id d ≡ some u
    → map_option
        (λ v. v.completed_registration)
        (get_user_by_tg_id tg_id (register event tg_id r u d).0)
      ≡ some true
unfolding register fill_profile
register-completed event tg_id r u d e =
    let filled = write_user tg_id (fill_profile r) d in
    let paid = (process_coin_transaction event tg_id (pos 5) profile_info false none filled).0 in
    completed-referral_step event tg_id u.referrer_id paid tg_id
    ∙ completed-process event tg_id (pos 5) profile_info filled tg_id
    ∙ ground (arith, get_user-write_user tg_id (fill_profile r) d (λ v. refl) tg_id)

module _ (event : Option Event) (tg_id : ℕ) (d : Db) (j : ℕ) where
  module _ (fair : IsFair event) (known : get_user_by_tg_id tg_id d ≢ none)
      (h : IsAudited j d) where
    reward_invite-IsAudited : (r : ℕ) → IsAudited j (reward_invite event tg_id r d).0
    unfolding reward_invite
    reward_invite-IsAudited r = elim (Option-cases (get_user_by_tg_id r d)) [
      | inl e ↦ ground arith
      | inr (u, e) ↦
          let paid =
            process-IsAudited r none d j h event (pos 5) (invite_reward tg_id) false
              (rw e (λ n. cc)) fair in
          let entered =
            process-IsAudited tg_id none
              (process_coin_transaction event r (pos 5) (invite_reward tg_id) false none d).0 j paid
              event (pos 5) invite_entry false
              (process-known event r (pos 5) (invite_reward tg_id) false none d tg_id known) fair in
          ground (arith, entered)
    ]

    referral_step-IsAudited :
        (referrer : Option ℕ) → IsAudited j (referral_step event tg_id referrer d).0
    unfolding referral_step
    referral_step-IsAudited none = h
    referral_step-IsAudited (some r) = ground (arith, reward_invite-IsAudited r)

has_deleted_account-process :
    (event : Option Event) (tg_id : ℕ) (d : Db)
    → has_deleted_account tg_id
        (process_coin_transaction event tg_id (pos 5) profile_info false none d).0
      ≡ has_deleted_account tg_id d
unfolding has_deleted_account
has_deleted_account-process event tg_id d =
    rw (deleted_accounts-process event tg_id (pos 5) profile_info false none d)

referral_step_returning :
    (event : Option Event) (tg_id : ℕ) (referrer : Option ℕ) (d : Db)
    → has_deleted_account tg_id d ≡ true
    → referral_step event tg_id referrer d ≡ (d, none)
unfolding referral_step
referral_step_returning event tg_id none d gone = refl
referral_step_returning event tg_id (some r) d gone = rw gone

get_user-fill :
    (tg_id : ℕ) (r : Registration) (d : Db) (j : ℕ)
    → j ≢ tg_id
    → get_user_by_tg_id j (write_user tg_id (fill_profile r) d) ≡ get_user_by_tg_id j d
unfolding fill_profile
get_user-fill tg_id r d j other =
    ground (arith, get_user-write_user tg_id (fill_profile r) d (λ v. refl) j)

module _ (event : Option Event) (tg_id : ℕ) (r : Registration) (d : Db) where
  -- The registration bonus is paid once: after a call that succeeds, a second one with any data and
  -- under any event fails and changes nothing.
  pub complete_twice :
      (event' : Option Event) (r' : Registration)
      → (complete_user_registration event tg_id r d).1 ≡ true
      → let d' = (complete_user_registration event tg_id r d).0 in
        complete_user_registration event' tg_id r' d' ≡ (d', false, none)
  unfolding complete_user_registration
  complete_twice event' r' done = elim (Option-cases (get_user_by_tg_id tg_id d)) [
    | inl e ↦ ground arith
    | inr (u, e) ↦ ground (arith, register-completed event tg_id r u d e)
  ]

  -- Registration pays through the log: under an event that makes no deposit negative the log goes on
  -- explaining every balance.
  pub complete-IsAudited :
      (j : ℕ)
      → IsFair event
      → IsAudited j d
      → IsAudited j (complete_user_registration event tg_id r d).0
  unfolding complete_user_registration register fill_profile
  complete-IsAudited j fair h = elim (Option-cases (get_user_by_tg_id tg_id d)) [
    | inl e ↦ ground arith
    | inr (u, e) ↦
        let filled = write_user tg_id (fill_profile r) d in
        let known : get_user_by_tg_id tg_id filled ≢ none =
          λ n. ground (arith, get_user-write_user tg_id (fill_profile r) d (λ v. refl) tg_id) in
        let kept = write_user-IsAudited tg_id (fill_profile r) d (λ v. refl) j (λ v. refl) h in
        ground (
          arith,
          referral_step-IsAudited event tg_id
              (process_coin_transaction event tg_id (pos 5) profile_info false none filled).0 j fair
              (process-known event tg_id (pos 5) profile_info false none filled tg_id known)
              (process-IsAudited tg_id none filled j kept event (pos 5) profile_info false known
                fair)
              u.referrer_id,
        )
  ]

  -- Someone who has deleted an account before brings no reward: no referrer is reported, and no other
  -- user's row changes.
  pub complete_returning :
      (j : ℕ)
      → has_deleted_account tg_id d ≡ true
      → j ≢ tg_id
      → let (d', _, referrer) = complete_user_registration event tg_id r d in
        (referrer ≡ none) × (get_user_by_tg_id j d' ≡ get_user_by_tg_id j d)
  unfolding complete_user_registration register has_deleted_account
  complete_returning j gone other = elim (Option-cases (get_user_by_tg_id tg_id d)) [
    | inl e ↦ (ground arith, ground arith)
    | inr (u, e) ↦
        let stays =
          referral_step_returning event tg_id u.referrer_id paid
            (rw (has_deleted_account-process event tg_id filled) gone) in
        (ground (arith, stays), ground (arith, stays, untouched j other))
  ]
    where
      filled : Db
      filled = write_user tg_id (fill_profile r) d

      paid : Db
      paid = (process_coin_transaction event tg_id (pos 5) profile_info false none filled).0

      untouched : (j : ℕ) → j ≢ tg_id → get_user_by_tg_id j paid ≡ get_user_by_tg_id j d
      untouched j other =
          get_user-process event tg_id (pos 5) profile_info false none filled j other
          ∙ ground (arith, get_user-fill tg_id r d j)
