-- ===== src/Gifts/Resale.antt =====
-- Buying a gift and selling it back: what comes back, and what the counters say.
use telegram_bot_new_version.Models.{Db}
use telegram_bot_new_version.Session.{get_user_by_tg_id, write_user}
use telegram_bot_new_version.Economy.Coins.{debit}
use telegram_bot_new_version.Models.Users.{User}
use telegram_bot_new_version.Models.Gifts.{GiftType, Source}
use telegram_bot_new_version.Session.Ledger.{get_user-write_user, IsCounted}
use telegram_bot_new_version.Gifts.Inventory.{
  get_gift_type_by_code, add_to_inventory, held, held-take, held-add,
}
use telegram_bot_new_version.Gifts.Engine.{sell_price, refund, sell, sell_gift, buy, purchase_gift}
use telegram_bot_new_version.Prelude.Int.{◌+ℤ◌, ◌-ℤ◌, ◌≤ℤ◌, pos, ℤ, pos_part, neg_part, int_laws}
use telegram_bot_new_version.Prelude.{
  ℕ, ◌+◌, ◌-◌, ◌*◌, ◌/◌, String, ◌≡◌, refl, none, some, arith, ◌<◌, ap,
}
use telegram_bot_new_version.Gifts.Coins.{users-add, sell_price-le, resale-le}

gift_types-add :
    (owner gift n : ℕ) (source : Source) (d : Db)
    → (add_to_inventory owner gift n source d).gift_types ≡ d.gift_types
unfolding add_to_inventory
gift_types-add owner gift n source d = ground arith

module _ (k n : ℕ) (g : GiftType) (d : Db) where
  get_user-buy :
      (u : User)
      → get_user_by_tg_id k d ≡ some u
      → get_user_by_tg_id k (buy k g n d) ≡ some (debit (pos (g.price_coins * n)) u)
  unfolding buy
  get_user-buy u e =
      let total = pos (g.price_coins * n) in
      let paid = write_user k (debit total) d in
      ground (
        arith,
        users-add k g.id n Source.purchase paid,
        get_user-write_user k (debit total) d (λ v. refl) k,
      )

  held-buy : held k g.id (buy k g n d) ≡ held k g.id d + n
  unfolding buy
  held-buy =
      let paid = write_user k (debit (pos (g.price_coins * n))) d in
      ground (arith, held-add k g.id n Source.purchase paid k g.id)

  get_gift_type-buy :
      (code : String) → get_gift_type_by_code code (buy k g n d) ≡ get_gift_type_by_code code d
  unfolding buy get_gift_type_by_code
  get_gift_type-buy code =
      let paid = write_user k (debit (pos (g.price_coins * n))) d in
      rw (gift_types-add k g.id n Source.purchase paid)

  get_user-sell :
      (u : User)
      → get_user_by_tg_id k d ≡ some u
      → get_user_by_tg_id k (sell k g n d) ≡ some (refund (pos (sell_price g * n)) u)
  unfolding sell
  get_user-sell u e =
      ground (arith, get_user-write_user k (refund (pos (sell_price g * n))) d (λ v. refl) k)

  held-sell : held k g.id (sell k g n d) ≡ held k g.id d - n
  unfolding sell
  held-sell = ground (arith, held-take k g.id n Source.sell d k g.id)

uncounted : (b s e : ℤ) (m : ℕ) → 0 < m → b +ℤ s ≡ e → (b +ℤ pos m) +ℤ s ≡ e → ⊥
uncounted b s e m h p q =
    omega (int_laws, ap pos_part p, ap neg_part p, ap pos_part q, ap neg_part q)

module _ (k : ℕ) (code : String) (n : ℕ) (d : Db) (u : User) (g : GiftType) where
  -- Who buys gifts and sells as many back holds what they held before, and never more coins: 80% of each
  -- price, rounded down, comes back.
  pub purchase_then_sell :
      get_user_by_tg_id k d ≡ some u
      → get_gift_type_by_code code d ≡ some g
      → (purchase_gift k code n d).1 ≡ none
      → let (d', failure) = sell_gift k code n (purchase_gift k code n d).0 in
        (failure ≡ none)
        × (held k g.id d' ≡ held k g.id d)
        × (v : User) × (get_user_by_tg_id k d' ≡ some v)
        × (v.coin_balance
            ≡ u.coin_balance -ℤ pos (g.price_coins * n) +ℤ pos (g.price_coins * 80 / 100 * n))
        × (v.coin_balance ≤ℤ u.coin_balance)
  unfolding purchase_gift sell_gift
  purchase_then_sell eu eg done =
      let d' = buy k g n d in
      let bought = get_user-buy k n g d u eu in
      let kept = get_gift_type-buy k n g d code in
      let before = held-buy k n g d in
      let sold = get_user-sell k n g d' _ bought in
      let after = held-sell k n g d' in
      let total = pos (g.price_coins * n) in
      let back = pos (sell_price g * n) in
      let w = refund back (debit total u) in
      (
        ground (arith, bought, kept, before),
        ground (arith, bought, kept, before, after),
        w,
        ground (arith, bought, kept, before, sold),
        unfold refund debit in refl,
        unfold refund debit in
            omega (int_laws, resale-le g.price_coins (sell_price g) n (sell_price-le g)),
      )

  -- A sale raises the balance and leaves `total_earned_coins` alone: after any sale that brings coins
  -- the balance is no longer what was earned less what was spent.
  pub sell_gift_uncounted :
      get_user_by_tg_id k d ≡ some u
      → get_gift_type_by_code code d ≡ some g
      → (sell_gift k code n d).1 ≡ none
      → 0 < g.price_coins * 80 / 100 * n
      → IsCounted k d
      → ¬ IsCounted k (sell_gift k code n d).0
  unfolding sell_gift
  sell_gift_uncounted eu eg done gain h counted =
      let sold = get_user-sell k n g d u eu in
      uncounted u.coin_balance u.total_spent_coins u.total_earned_coins (sell_price g * n) gain
        (ground arith) (unfold refund in ground (arith, sold))
