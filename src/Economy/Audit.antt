-- ===== src/Economy/Audit.antt =====
-- The coin log accounts for every balance: `process_coin_transaction`, and what is built from it.
use telegram_bot_new_version.Prelude.{
  Bool-cases, ℕ, ◌≢◌, inl, inr, Bool, true, false, Option, none, some, Option-cases, refl, arith,
  ◌≡◌,
}
use telegram_bot_new_version.Prelude.Int.{ℤ, ◌≤ℤ◌, pos, neg, leb_ℤ, int_laws, +ℤ_shift, +ℤ_raise}
use telegram_bot_new_version.Economy.Coins.{
  Event, apply_event, process_coin_transaction, charge, deposit, credit, log_entry, debit,
}
use telegram_bot_new_version.Models.Coins.{Description}
use telegram_bot_new_version.Models.{Db}
use telegram_bot_new_version.Session.{get_user_by_tg_id, add_coin_transaction, write_user}
use telegram_bot_new_version.Session.Ledger.{
  IsAudited, post-IsAudited, IsCounted, write_user-IsCounted,
}
use telegram_bot_new_version.Models.Users.{User}

-- A running event that never turns a deposit into a charge.
abbrev pub IsFair : Option Event → Type 0
IsFair none = Unit
IsFair (some e) = (a : ℤ) → pos 0 ≤ℤ a → pos 0 ≤ℤ e.scale a

pub apply_event-nonneg :
    (event : Option Event) (ignore : Bool) (a : ℤ) (text : Description)
    → IsFair event
    → pos 0 ≤ℤ a
    → pos 0 ≤ℤ (apply_event event ignore a text).0
unfolding apply_event
apply_event-nonneg none ignore a text fair h = h
apply_event-nonneg (some e) true a text fair h = h
apply_event-nonneg (some e) false a text fair h = fair a h

module _ (k : ℕ) (reference : Option ℕ) (d : Db) (j : ℕ) (h : IsAudited j d) where
  charge-IsAudited :
      (amount : ℤ) (text : Description) → IsAudited j (charge k amount text reference d).0
  unfolding charge
  charge-IsAudited amount text = elim (Option-cases (get_user_by_tg_id k d)) [
    | inl e ↦ ground arith
    | inr (u, e) ↦ elim (Bool-cases (leb_ℤ (neg amount) u.coin_balance)) [
      | inl covered ↦ ground (arith, posted u e covered)
      | inr short ↦ ground arith
    ]
  ]
    where
      posted :
          (u : User)
          → get_user_by_tg_id k d ≡ some u
          → leb_ℤ (neg amount) u.coin_balance ≡ true
          → IsAudited j (
              add_coin_transaction
                (log_entry k amount text reference)
                (write_user k (debit (neg amount)) d))
      posted u e covered =
          post-IsAudited k (debit (neg amount)) d (λ v. refl) j (log_entry k amount text reference)
            refl (λ n. cc) (λ v. omega int_laws) (λ v e' s. grind int_laws) h

  deposit-IsAudited :
      (event : Option Event) (amount : ℤ) (text : Description) (ignore : Bool)
      → get_user_by_tg_id k d ≢ none
      → IsFair event
      → pos 0 ≤ℤ amount
      → IsAudited j (deposit event k amount text ignore reference d)
  unfolding deposit
  deposit-IsAudited event amount text ignore known fair nonneg =
      let (final, text') = apply_event event ignore amount text in
      post-IsAudited k (credit final) d (λ v. refl) j (log_entry k final text' reference) refl known
        (λ v. refl)
        (λ v e s. omega (int_laws, apply_event-nonneg event ignore amount text fair nonneg)) h

  -- A charge is refused or logged, a deposit is logged: the log goes on explaining every balance, under
  -- an event that makes no deposit negative, for a user that exists.
  pub process-IsAudited :
      (event : Option Event) (amount : ℤ) (text : Description) (ignore : Bool)
      → get_user_by_tg_id k d ≢ none
      → IsFair event
      → IsAudited j (process_coin_transaction event k amount text ignore reference d).0
  unfolding process_coin_transaction
  process-IsAudited event amount text ignore known fair =
      ground
        (arith, charge-IsAudited amount text, deposit-IsAudited event amount text ignore known fair)

module _ (k : ℕ) (reference : Option ℕ) (d : Db) (j : ℕ) where
  charge-IsCounted :
      (amount : ℤ) (text : Description)
      → IsCounted j d
      → IsCounted j (charge k amount text reference d).0
  unfolding charge
  charge-IsCounted amount text h = elim (Option-cases (get_user_by_tg_id k d)) [
    | inl e ↦ ground arith
    | inr (u, e) ↦ ground (
      arith,
      write_user-IsCounted k (debit (neg amount)) d (λ v. refl) j (λ v c. +ℤ_shift _ _ _ _ c) h,
    )
  ]

  -- Whatever the event does, the three coin columns move together.
  pub process-IsCounted :
      (event : Option Event) (amount : ℤ) (text : Description) (ignore : Bool)
      → IsCounted j d
      → IsCounted j (process_coin_transaction event k amount text ignore reference d).0
  unfolding process_coin_transaction deposit
  process-IsCounted event amount text ignore h =
      let final = (apply_event event ignore amount text).0 in
      ground (
        arith,
        charge-IsCounted amount text h,
        write_user-IsCounted k (credit final) d (λ v. refl) j (λ v c. +ℤ_raise _ _ _ _ c) h,
      )
