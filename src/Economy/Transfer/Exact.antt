-- ===== src/Economy/Transfer/Exact.antt =====
-- What a transfer does: all or nothing, exactly between the two accounts.
use telegram_bot_new_version.Prelude.Int.{ℤ, neg, ◌≤ℤ◌, pos}
use telegram_bot_new_version.Prelude.{
  ℕ, ◌≢◌, Bool, Option, none, ◌≡◌, refl, true, some, arith, Option-cases, sym, ◌∙◌, inl, inr,
}
use telegram_bot_new_version.Economy.Coins.{
  process_coin_transaction, charge, deposit, Event, apply_event, debit, credit,
}
use telegram_bot_new_version.Models.Coins.{Description}
use telegram_bot_new_version.Models.{Db}
use telegram_bot_new_version.Session.{get_user_by_tg_id}
use telegram_bot_new_version.Models.Users.{User}
use telegram_bot_new_version.Session.Ledger.{get_user-write_user}
use telegram_bot_new_version.Economy.Transfer.{
  transfer_coins, TransferError, lost_race, transfer_out, transfer_in,
}

-- A coin transaction keeps every user, and changes coins only of its own.
pub get_user-process :
    (event : Option Event) (k : ℕ) (amount : ℤ) (text : Description) (ignore : Bool)
    → (reference : Option ℕ) (d : Db) (j : ℕ) → j ≢ k
    → get_user_by_tg_id j (process_coin_transaction event k amount text ignore reference d).0
      ≡ get_user_by_tg_id j d
unfolding process_coin_transaction charge deposit
get_user-process event k amount text ignore reference d j other =
    let final = (apply_event event ignore amount text).0 in
    ground (
      arith,
      get_user-write_user k (credit final) d (λ v. refl) j,
      get_user-write_user k (debit (neg amount)) d (λ v. refl) j,
    )

-- A charge that the balance covers is made.
pub charge_covered :
    (k : ℕ) (n : ℤ) (text : Description) (reference : Option ℕ) (d : Db) (u : User)
    → get_user_by_tg_id k d ≡ some u
    → pos 1 ≤ℤ n
    → n ≤ℤ u.coin_balance
    → let (d', done) = process_coin_transaction none k (neg n) text true reference d in
      (done ≡ true) × (get_user_by_tg_id k d' ≡ some (debit n u))
unfolding process_coin_transaction charge neg
charge_covered k n text reference d u e positive covered =
    ground (arith, get_user-write_user k (debit n) d (λ v. refl) k)

deposit_exact :
    (k : ℕ) (n : ℤ) (text : Description) (reference : Option ℕ) (d : Db) (u : User)
    → get_user_by_tg_id k d ≡ some u
    → pos 1 ≤ℤ n
    → get_user_by_tg_id k (process_coin_transaction none k n text true reference d).0
      ≡ some (credit n u)
unfolding process_coin_transaction deposit
deposit_exact k n text reference d u e positive =
    ground (arith, get_user-write_user k (credit n) d (λ v. refl) k)

module _ (from_id to_id : ℕ) (amount : ℤ) (d : Db) where
  -- A positive amount that the sender's balance covers moves from one account to the other, and no
  -- third account changes.
  pub transfer_moves :
      (sender receiver : User) (j : ℕ)
      → from_id ≢ to_id
      → j ≢ from_id
      → j ≢ to_id
      → get_user_by_tg_id from_id d ≡ some sender
      → get_user_by_tg_id to_id d ≡ some receiver
      → pos 1 ≤ℤ amount
      → amount ≤ℤ sender.coin_balance
      → let (d', failure) = transfer_coins from_id to_id amount d in
        (failure ≡ none)
        × (get_user_by_tg_id from_id d' ≡ some (debit amount sender))
        × (get_user_by_tg_id to_id d' ≡ some (credit amount receiver))
        × (get_user_by_tg_id j d' ≡ get_user_by_tg_id j d)
  unfolding transfer_coins
  transfer_moves sender receiver j apart jf jt es er positive covered = (
    ground (arith, charged),
    ground (arith, charged, elsewhere from_id apart),
    ground (arith, charged, paid),
    ground (
      arith,
      charged,
      elsewhere j jt,
      get_user-process none from_id (neg amount) sender_text true none d j jf,
    ),
  )
    where
      sender_text : Description
      sender_text = transfer_out receiver.public_id

      receiver_text : Description
      receiver_text = transfer_in sender.public_id

      after_charge : Db
      after_charge = (process_coin_transaction none from_id (neg amount) sender_text true none d).0

      charged :
          ((process_coin_transaction none from_id (neg amount) sender_text true none d).1 ≡ true)
          × (get_user_by_tg_id from_id after_charge ≡ some (debit amount sender))
      charged = charge_covered from_id amount sender_text none d sender es positive covered

      elsewhere :
          (j : ℕ)
          → j ≢ to_id
          → get_user_by_tg_id j
              (process_coin_transaction none to_id amount receiver_text true none after_charge).0
            ≡ get_user_by_tg_id j after_charge
      elsewhere j other =
          get_user-process none to_id amount receiver_text true none after_charge j other

      paid :
          get_user_by_tg_id to_id
            (process_coin_transaction none to_id amount receiver_text true none after_charge).0
          ≡ some (credit amount receiver)
      paid =
          deposit_exact to_id amount receiver_text none after_charge receiver
            (get_user-process none from_id (neg amount) sender_text true none d to_id
                (λ e. apart (sym e))
              ∙ er)
            positive

  -- A transfer that is refused changes nothing, and the balance found under the locks is still there
  -- when it is charged.
  pub transfer_refused :
      {e : TransferError}
      → (transfer_coins from_id to_id amount d).1 ≡ some e
      → ((transfer_coins from_id to_id amount d).0 ≡ d) × (e ≢ lost_race)
  unfolding transfer_coins
  transfer_refused {e} failed = elim (Option-cases (get_user_by_tg_id from_id d)) [
    | inl gone ↦ ground arith
    | inr (sender, es) ↦ elim (Option-cases (get_user_by_tg_id to_id d)) [
      | inl gone ↦ ground arith
      | inr (receiver, er) ↦
          grind (
            arith,
            charge_covered from_id amount (transfer_out receiver.public_id) none d sender es,
          )
    ]
  ]
