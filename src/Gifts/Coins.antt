-- ===== src/Gifts/Coins.antt =====
-- What gifts cost: services/gift_engine.py seen through the coin columns and the coin log.
use telegram_bot_new_version.Models.{Db}
use telegram_bot_new_version.Session.{get_user_by_tg_id, write_user, add_coin_transaction}
use telegram_bot_new_version.Economy.Coins.{debit}
use telegram_bot_new_version.Models.Users.{User}
use telegram_bot_new_version.Models.Gifts.{GiftType, Source}
use telegram_bot_new_version.Models.Coins.{Description, gift_purchase, gift_sell_tx}
use telegram_bot_new_version.Session.Ledger.{
  IsAudited, post-IsAudited, IsCounted, write_user-IsCounted,
}
use telegram_bot_new_version.Gifts.Inventory.{get_gift_type_by_code, add_to_inventory}
use telegram_bot_new_version.Gifts.Engine.{
  gift_log, buy, purchase_gift, sell_price, refund, sell, sell_gift,
}
use telegram_bot_new_version.Prelude.{
  Bool-cases, Option-cases, ℕ, ◌*◌, String, ◌≡◌, refl, inl, inr, some, arith, ◌≤◌,
}
use telegram_bot_new_version.Prelude.Int.{neg, ◌≤ℤ◌, ltb_ℤ, int_laws, pos, +ℤ_shift}

module _ (owner gift n : ℕ) (source : Source) (d : Db) where
  pub users-add : (add_to_inventory owner gift n source d).users ≡ d.users
  unfolding add_to_inventory
  users-add = ground arith

  pub coin_transactions-add :
      (add_to_inventory owner gift n source d).coin_transactions ≡ d.coin_transactions
  unfolding add_to_inventory
  coin_transactions-add = ground arith

sell-IsAudited :
    (k n : ℕ) (d : Db) (j : ℕ)
    → IsAudited j d
    → (g : GiftType) (u : User) → get_user_by_tg_id k d ≡ some u
    → IsAudited j (sell k g n d)
unfolding sell
sell-IsAudited k n d j h g u e =
    let earned = pos (sell_price g * n) in
    let t = gift_log k earned (Description.gift_sell n g.display_name) d.next_id gift_sell_tx in
    let posted : IsAudited j (add_coin_transaction t (write_user k (refund earned) d)) =
      post-IsAudited k (refund earned) d (λ v. refl) j t refl (rw e (λ x. cc)) (λ v. refl)
        (λ v e' s. omega int_laws) h in
    posted

module _ (k : ℕ) (code : String) (n : ℕ) (d : Db) (j : ℕ) where
  buy-IsAudited :
      (g : GiftType) (u : User)
      → get_user_by_tg_id k d ≡ some u
      → pos (g.price_coins * n) ≤ℤ u.coin_balance
      → IsAudited j d
      → IsAudited j (buy k g n d)
  unfolding buy
  buy-IsAudited g u e covered h =
      let total = pos (g.price_coins * n) in
      let paid = write_user k (debit total) d in
      let stored = add_to_inventory k g.id n Source.purchase paid in
      let t =
        gift_log k (neg total) (Description.gift_buy n g.display_name) stored.next_id
          gift_purchase in
      ground (
        arith,
        users-add k g.id n Source.purchase paid,
        coin_transactions-add k g.id n Source.purchase paid,
        post-IsAudited k (debit total) d (λ v. refl) j t refl (λ x. cc) (λ v. omega int_laws)
            (λ v e' s. grind int_laws) h,
      )

  -- A purchase is paid from the balance, never beyond it, and logged.
  pub purchase_gift-IsAudited : IsAudited j d → IsAudited j (purchase_gift k code n d).0
  unfolding purchase_gift
  purchase_gift-IsAudited h = elim (Option-cases (get_user_by_tg_id k d)) [
    | inl e ↦ ground arith
    | inr (u, e) ↦ elim (Option-cases (get_gift_type_by_code code d)) [
      | inl e' ↦ ground arith
      | inr (g, e') ↦ elim (Bool-cases (ltb_ℤ u.coin_balance (pos (g.price_coins * n)))) [
        | inl short ↦ ground arith
        | inr covered ↦ ground (arith, buy-IsAudited g u e (ground arith) h)
      ]
    ]
  ]

  buy-IsCounted : (g : GiftType) → IsCounted j d → IsCounted j (buy k g n d)
  unfolding buy
  buy-IsCounted g h =
      let total = pos (g.price_coins * n) in
      let paid = write_user k (debit total) d in
      ground (
        arith,
        users-add k g.id n Source.purchase paid,
        write_user-IsCounted k (debit total) d (λ v. refl) j (λ v c. +ℤ_shift _ _ _ _ c) h,
      )

  pub purchase_gift-IsCounted : IsCounted j d → IsCounted j (purchase_gift k code n d).0
  unfolding purchase_gift
  purchase_gift-IsCounted h = elim (Option-cases (get_gift_type_by_code code d)) [
    | inl e' ↦ ground arith
    | inr (g, e') ↦ ground (arith, buy-IsCounted g h)
  ]

  -- A sale is logged too, and pays no negative sum.
  pub sell_gift-IsAudited : IsAudited j d → IsAudited j (sell_gift k code n d).0
  unfolding sell_gift
  sell_gift-IsAudited h = elim (Option-cases (get_user_by_tg_id k d)) [
    | inl e ↦ ground arith
    | inr (u, e) ↦ elim (Option-cases (get_gift_type_by_code code d)) [
      | inl e' ↦ ground arith
      | inr (g, e') ↦ ground (arith, sell-IsAudited k n d j h g u e)
    ]
  ]

-- The coins that a sale brings for each gift are at most its price.
pub sell_price-le : (g : GiftType) → sell_price g ≤ g.price_coins
sell_price-le g = omega arith

-- Selling back never pays more than buying cost.
pub resale-le : (p q n : ℕ) → q ≤ p → q * n ≤ p * n
resale-le p q n h = grind arith
