-- ===== src/Economy/Coins/Keeps.antt =====
-- What a coin transaction leaves alone: every user, and every column but the three of coins.
use telegram_bot_new_version.Prelude.{
  Option-cases, ℕ, ◌≡◌, refl, inl, inr, Bool, Option, arith, ◌≢◌, none, some,
}
use telegram_bot_new_version.Prelude.Table.{map_option}
use telegram_bot_new_version.Prelude.Int.{ℤ, neg}
use telegram_bot_new_version.Models.Users.{User}
use telegram_bot_new_version.Economy.Coins.{
  Event, Description, Db, process_coin_transaction, charge, deposit, try_debit, debit, credit,
  get_user_by_tg_id, apply_event,
}
use telegram_bot_new_version.Session.Ledger.{get_user-write_user}

module _ {B : Type 0} (g : User → B) (event : Option Event) (k : ℕ) (amount : ℤ) where
  module _ (text : Description) (ignore : Bool) (reference : Option ℕ) (d : Db) (j : ℕ) where
    -- A column that neither `debit` nor `credit` writes keeps its value.
    pub process-keeps :
        ((n : ℤ) (u : User) → g (debit n u) ≡ g u)
        → ((n : ℤ) (u : User) → g (credit n u) ≡ g u)
        → map_option g (
            get_user_by_tg_id j (process_coin_transaction event k amount text ignore reference d).0)
          ≡ map_option g (get_user_by_tg_id j d)
    unfolding process_coin_transaction charge deposit try_debit
    process-keeps out in_ = elim (Option-cases (get_user_by_tg_id j d)) [
      | inl e ↦ ground (
        arith,
        get_user-write_user k (credit (apply_event event ignore amount text).0) d (λ v. refl) j,
        get_user-write_user k (debit (neg amount)) d (λ v. refl) j,
      )
      | inr (u, e) ↦ ground (
        arith,
        get_user-write_user k (credit (apply_event event ignore amount text).0) d (λ v. refl) j,
        get_user-write_user k (debit (neg amount)) d (λ v. refl) j,
        out (neg amount) u,
        in_ (apply_event event ignore amount text).0 u,
      )
    ]

map_option-ne-none {ℓ κ} :
    {A : Type ℓ} {B : Type κ} (g : A → B) (a b : Option A)
    → map_option g a ≡ map_option g b
    → b ≢ none
    → a ≢ none
map_option-ne-none g none none e h = h
map_option-ne-none g none (some b) e h = λ n. cc
map_option-ne-none g (some a) b e h = λ n. cc

-- No coin transaction loses a user.
pub process-known :
    (event : Option Event) (k : ℕ) (amount : ℤ) (text : Description) (ignore : Bool)
    → (reference : Option ℕ) (d : Db) (j : ℕ) → get_user_by_tg_id j d ≢ none
    → get_user_by_tg_id j (process_coin_transaction event k amount text ignore reference d).0 ≢ none
unfolding debit credit
process-known event k amount text ignore reference d j =
    map_option-ne-none (λ u. u.tg_id) _ _
      (process-keeps (λ u. u.tg_id) event k amount text ignore reference d j (λ n u. refl)
        (λ n u. refl))

-- Nor does it touch the ledger of deleted accounts.
pub deleted_accounts-process :
    (event : Option Event) (k : ℕ) (amount : ℤ) (text : Description) (ignore : Bool)
    → (reference : Option ℕ) (d : Db)
    → (process_coin_transaction event k amount text ignore reference d).0.deleted_accounts
      ≡ d.deleted_accounts
unfolding process_coin_transaction charge deposit
deleted_accounts-process event k amount text ignore reference d = ground arith
