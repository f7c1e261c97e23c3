-- ===== src/Session/Ledger.antt =====
-- What the coin log says of a balance, and the two ways in which operations keep it so: a write that
-- leaves the coins alone, and a change of a balance together with its log entry.
use telegram_bot_new_version.Prelude.{
  ℕ, ◌≡◌, ◌≢◌, inl, inr, Option, none, some, List, [], ◌∷◌, arith, ◌==◌, if◌then◌else◌,
  Option-cases,
}
use telegram_bot_new_version.Prelude.Int.{ℤ, pos, ◌+ℤ◌, ◌≤ℤ◌, +ℤ_comm, +ℤ_zero}
use telegram_bot_new_version.Prelude.Table.{find-update, map_option, find}
use telegram_bot_new_version.Models.{Db}
use telegram_bot_new_version.Models.Users.{User}
use telegram_bot_new_version.Models.Coins.{CoinTransaction}
use telegram_bot_new_version.Session.{user_key, get_user_by_tg_id, write_user, add_coin_transaction}

-- The sum of the logged amounts of one user.
unfoldable pub logged : ℕ → List CoinTransaction → ℤ
logged k [] = pos 0
logged k (t ∷ ts) = if t.user_id == k then t.amount +ℤ logged k ts else logged k ts

-- A user's balance is the sum of the log, and is not negative; an id without a user has no log.
abbrev pub Explains : ℤ → Option User → Type 0
Explains s none = s ≡ pos 0
Explains s (some u) = (u.coin_balance ≡ s) × (pos 0 ≤ℤ u.coin_balance)

abbrev pub IsAudited : ℕ → Db → Type 0
IsAudited k d = Explains (logged k d.coin_transactions) (get_user_by_tg_id k d)

-- The balance is what was ever earned less what was ever spent.
abbrev pub Counts : Option User → Type 0
Counts none = Unit
Counts (some u) = u.coin_balance +ℤ u.total_spent_coins ≡ u.total_earned_coins

abbrev pub IsCounted : ℕ → Db → Type 0
IsCounted k d = Counts (get_user_by_tg_id k d)

module _ (k : ℕ) (f : User → User) (d : Db) (same_key : (u : User) → (f u).tg_id ≡ u.tg_id) where
  -- Where a written user is found.
  pub get_user-write_user :
      (j : ℕ)
      → get_user_by_tg_id j (write_user k f d)
        ≡ (if k == j then map_option f (get_user_by_tg_id j d) else get_user_by_tg_id j d)
  get_user-write_user j = find-update user_key j k f d.users same_key

  pub write_user-IsAudited :
      (j : ℕ)
      → ((u : User) → (f u).coin_balance ≡ u.coin_balance)
      → IsAudited j d
      → IsAudited j (write_user k f d)
  write_user-IsAudited j same h = elim (Option-cases (get_user_by_tg_id j d)) [
    | inl e ↦ ground (arith, get_user-write_user j)
    | inr (u, e) ↦ ground (arith, get_user-write_user j, same u)
  ]

  -- A balance that changes by the amount of the entry that goes into the log.
  pub post-IsAudited :
      (j : ℕ) (t : CoinTransaction)
      → t.user_id ≡ k
      → get_user_by_tg_id k d ≢ none
      → ((u : User) → (f u).coin_balance ≡ u.coin_balance +ℤ t.amount)
      → ((u : User)
          → get_user_by_tg_id k d ≡ some u
          → pos 0 ≤ℤ u.coin_balance
          → pos 0 ≤ℤ (f u).coin_balance)
      → IsAudited j d
      → IsAudited j (add_coin_transaction t (write_user k f d))
  unfolding logged
  post-IsAudited j t own known moved solvent h = elim (Option-cases (get_user_by_tg_id j d)) [
    | inl e ↦ ground (arith, get_user-write_user j)
    | inr (u, e) ↦ ground (
      arith,
      get_user-write_user j,
      moved u,
      solvent u,
      +ℤ_comm t.amount (logged j d.coin_transactions),
    )
  ]

  pub write_user-IsCounted :
      (j : ℕ)
      → ((u : User)
          → u.coin_balance +ℤ u.total_spent_coins ≡ u.total_earned_coins
          → (f u).coin_balance +ℤ (f u).total_spent_coins ≡ (f u).total_earned_coins)
      → IsCounted j d
      → IsCounted j (write_user k f d)
  write_user-IsCounted j same h = elim (Option-cases (get_user_by_tg_id j d)) [
    | inl e ↦ ground (arith, get_user-write_user j)
    | inr (u, e) ↦ ground (arith, get_user-write_user j, same u)
  ]

-- A new account whose first balance is the entry that goes into the log with it.
pub insert-IsAudited :
    (u : User) (t : CoinTransaction) (d : Db) (j : ℕ)
    → t.user_id ≡ u.tg_id
    → get_user_by_tg_id u.tg_id d ≡ none
    → u.coin_balance ≡ t.amount
    → pos 0 ≤ℤ t.amount
    → IsAudited j d
    → IsAudited j (add_coin_transaction t (record d { users = u ∷ d.users }))
unfolding logged find
insert-IsAudited u t d j own fresh start nonneg h = ground (arith, +ℤ_zero t.amount)
