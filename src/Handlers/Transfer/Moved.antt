-- ===== src/Handlers/Transfer/Moved.antt =====
-- What the transfer of bot/handlers/transfer.py moves, and what it leaves unsaid.
use telegram_bot_new_version.Models.{Db}
use telegram_bot_new_version.Session.{user_key, get_user_by_tg_id, write_user}
use telegram_bot_new_version.Models.Users.{User}
use telegram_bot_new_version.Session.Ledger.{get_user-write_user, IsAudited}
use telegram_bot_new_version.Handlers.Transfer.Atomic.{
  set_balance, write_balances, execute_atomic_transfer, moved, between,
}
use telegram_bot_new_version.Prelude.{
  ◌==◌, if◌then◌else◌, count_if, ℕ, ◌≤◌, ◌≡◌, refl, ◌≢◌, some, arith, ap,
}
use telegram_bot_new_version.Prelude.Table.{map_option, find-key}
use telegram_bot_new_version.Prelude.Int.{ℤ, ◌+ℤ◌, ◌-ℤ◌, ◌≤ℤ◌, pos, pos_part, neg_part, int_laws}

row_of : (k : ℕ) (d : Db) (u : User) → get_user_by_tg_id k d ≡ some u → u.tg_id ≡ k
row_of k d u e = find-key user_key k d.users u e

-- The two writes of balances, seen at any user.
get_user-two_writes :
    (a b : ℕ) (m n : ℤ) (d : Db) (j : ℕ)
    → get_user_by_tg_id j (write_user b (set_balance n) (write_user a (set_balance m) d)) ≡ (
        if b == j
        then map_option (set_balance n) (
            if a == j
            then map_option (set_balance m) (get_user_by_tg_id j d)
            else get_user_by_tg_id j d)
        else if a == j
        then map_option (set_balance m) (get_user_by_tg_id j d)
        else get_user_by_tg_id j d)
unfolding set_balance
get_user-two_writes a b m n d j = ground (
  arith,
  get_user-write_user b (set_balance n) (write_user a (set_balance m) d) (λ v. refl) j,
  get_user-write_user a (set_balance m) d (λ v. refl) j,
)

less-ne : (x : ℤ) (n : ℕ) → 1 ≤ n → x -ℤ pos n ≢ x
less-ne x n h e = omega (int_laws, ap pos_part e, ap neg_part e)

more-ne : (x : ℤ) (n : ℕ) → 1 ≤ n → x +ℤ pos n ≢ x
more-ne x n h e = omega (int_laws, ap pos_part e, ap neg_part e)

module _ (a b n : ℕ) (d : Db) where
  -- What a transfer that is made has checked, and the state that it leaves.
  made :
      (sender receiver : User)
      → get_user_by_tg_id a d ≡ some sender
      → get_user_by_tg_id b d ≡ some receiver
      → (execute_atomic_transfer a b n d).1 ≡ moved
      → (a ≢ b)
        × (1 ≤ n)
        × (pos n ≤ℤ sender.coin_balance)
        × (count_if (between a b) d.blocks ≡ 0)
        × ((execute_atomic_transfer a b n d).0
            ≡ write_user b
                (set_balance (receiver.coin_balance +ℤ pos n))
                (write_user a (set_balance (sender.coin_balance -ℤ pos n)) d))
  unfolding execute_atomic_transfer write_balances
  made sender receiver es er m =
      ground (arith, es, er, row_of a d sender es, row_of b d receiver er)

  -- A transfer that is made moves a positive amount between two users of whom neither blocks the other:
  -- the sender, who had as much, has that much less, the receiver has it more, nothing else of their
  -- rows changes, and no third user does.
  pub atomic_exact :
      (sender receiver : User) (j : ℕ)
      → get_user_by_tg_id a d ≡ some sender
      → get_user_by_tg_id b d ≡ some receiver
      → (execute_atomic_transfer a b n d).1 ≡ moved
      → j ≢ a
      → j ≢ b
      → let d' = (execute_atomic_transfer a b n d).0 in
        (1 ≤ n)
        × (pos n ≤ℤ sender.coin_balance)
        × (count_if (between a b) d.blocks ≡ 0)
        × (get_user_by_tg_id a d'
            ≡ some (record sender { coin_balance = sender.coin_balance -ℤ pos n }))
        × (get_user_by_tg_id b d'
            ≡ some (record receiver { coin_balance = receiver.coin_balance +ℤ pos n }))
        × (get_user_by_tg_id j d' ≡ get_user_by_tg_id j d)
  unfolding set_balance
  atomic_exact sender receiver j es er m ja jb =
      let (differ, positive, covered, free, left) = made sender receiver es er m in
      let at =
        get_user-two_writes a b (sender.coin_balance -ℤ pos n) (receiver.coin_balance +ℤ pos n) d in
      (
        positive,
        covered,
        free,
        rw left (ground (arith, at a, es)),
        rw left (ground (arith, at b, er)),
        rw left (ground (arith, at j)),
      )

  -- A transfer that is not made changes nothing.
  pub atomic_refused :
      (execute_atomic_transfer a b n d).1 ≢ moved → (execute_atomic_transfer a b n d).0 ≡ d
  unfolding execute_atomic_transfer write_balances
  atomic_refused m = ground arith

  -- The transfer writes no entry into the coin log: where the log explained the balances of the two, it
  -- explains neither after a transfer that is made.
  pub unlogged :
      (sender receiver : User)
      → get_user_by_tg_id a d ≡ some sender
      → get_user_by_tg_id b d ≡ some receiver
      → (execute_atomic_transfer a b n d).1 ≡ moved
      → IsAudited a d
      → IsAudited b d
      → let d' = (execute_atomic_transfer a b n d).0 in
        (d'.coin_transactions ≡ d.coin_transactions) × ¬ IsAudited a d' × ¬ IsAudited b d'
  unfolding set_balance
  unlogged sender receiver es er m ha hb =
      let (differ, positive, covered, free, left) = made sender receiver es er m in
      let at =
        get_user-two_writes a b (sender.coin_balance -ℤ pos n) (receiver.coin_balance +ℤ pos n) d in
      (
        rw left refl,
        rw left (λ h. less-ne sender.coin_balance n positive (ground (arith, at a, es))),
        rw left (λ h. more-ne receiver.coin_balance n positive (ground (arith, at b, er))),
      )
